-- ===== src/EndToEnd/Availability/Tests.antt =====
-- An order over two leaves and the merge service.
use container_patterns.Common.{
  ℕ, zero, suc, ◌<◌, ◌≡◌, refl, Bool, true, Option, none, some, List, [], ◌∷◌, arith, Bytes, codes,
}
use container_patterns.Decimal.{pos}
use container_patterns.OrderApi.Stats.{new_stats}
use container_patterns.OrderApi.Orders
use container_patterns.OrderApi.Orders.{found, order_response, handle_orders, enqueue}
use container_patterns.Inventory.Scatter
use container_patterns.Inventory.Scatter.{Partial, timed_out, call_leaf}
use container_patterns.Inventory.Scatter.Order.{in_order, member}
use container_patterns.Inventory.Root.{Envelope, MergeCall, merged, post, handle_availability}
use container_patterns.WorkQueue.Redis.Plain.{plain, empty}
use container_patterns.WorkQueue.Coordinator.{replied, handle_enqueue}
use container_patterns.EndToEnd.{Request, place_order}
use container_patterns.EndToEnd.Tests.{bare}
use container_patterns.EndToEnd.Availability.{post_availability, Judged, place_order-Judged}

abbrev valid : Bytes → Bool
valid b = true

abbrev marshal : Envelope → Option Bytes
marshal env = some env.query

abbrev merge : Bytes → MergeCall
merge payload = merged 200 [] payload

-- The first leaf does not answer in time, and the second answers before that.
abbrev leaf : Bytes → ℕ → Bytes → Partial
leaf body zero ep = call_leaf valid (λ b. none) ep 900 timed_out
leaf body (suc i) ep =
    call_leaf valid (λ b. some (codes "east")) ep 12 (Scatter.answered 200 (codes "{}"))

abbrev leaves : List Bytes
leaves = codes "http://leaf-0" ∷ codes "http://leaf-1" ∷ []

abbrev second_first : List ℕ
second_first = 1 ∷ 0 ∷ []

both : (i : ℕ) → i < 2 → member i second_first ≡ true
unfolding member
both zero h = refl
both (suc zero) h = refl
both (suc (suc i)) h = absurd (omega arith)

abbrev through_root : Request plain bare
through_root = record {
  method = Orders.post;
  order = codes "o";
  request = some (record {
    customer_id = codes "c1";
    items = record { sku = codes "A"; qty = pos 1 } ∷ [];
    currency = codes "EUR";
  });
  cart = found;
  available =
      post_availability replied
        (handle_availability valid marshal merge leaf leaves second_first post (some (codes "{}")));
  http = replied;
  redis = replied;
  task = codes "t";
  enqueued_at = codes "now";
}

through_root_placed :
    (place_order plain bare through_root new_stats empty).0.0
    ≡ order_response 201 (codes "o") (codes "t") (codes "{}")
unfolding place_order handle_orders enqueue handle_enqueue post_availability handle_availability
through_root_placed = refl

place_order-Judged_example :
    (env : Envelope) × (payload : Bytes) × (env.query ≡ codes "{}")
    × (env.partials ≡ in_order (leaf (codes "{}")) 0 leaves)
    × (marshal env ≡ some payload)
    × Judged bare.fulfillable bare.task_id merge payload (codes "{}") true
place_order-Judged_example =
    place_order-Judged plain bare valid marshal merge leaf leaves second_first (codes "{}") replied
      through_root new_stats empty (codes "o") (codes "t") (codes "{}") both refl
      through_root_placed
