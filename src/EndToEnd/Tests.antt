-- ===== src/EndToEnd/Tests.antt =====
-- An order that goes the whole way behind another one, and the theorems at it.
use container_patterns.Common.{
  ◌≡◌, refl, ◌⊎◌, true, false, Option, none, some, [], ◌∷◌, ◌++◌, Bytes, bytes_eq, codes, All,
  if◌then◌else◌,
}
use container_patterns.Decimal.{pos}
use container_patterns.OrderApi.Stats.{new_stats}
use container_patterns.OrderApi.Orders.{
  post, found, answered, order_response, handle_orders, enqueue,
}
use container_patterns.WorkQueue.Redis.Plain.{plain, empty}
use container_patterns.WorkQueue.Redis.Effects.{View, text, elem}
use container_patterns.WorkQueue.Keys.{ready_key, done_key, settle_pending_key}
use container_patterns.WorkQueue.Tracking.{IsTracked, Counted}
use container_patterns.WorkQueue.Coordinator.{replied, request_lost, payload_field, handle_enqueue}
use container_patterns.WorkQueue.Framework.{Round, run_loop}
use container_patterns.WorkQueue.Framework.Progress.{HasPayload}
use container_patterns.WorkQueue.Framework.Progress.Rounds.{IsSteady}
use container_patterns.WorkQueue.Framework.Progress.Drained.{Drained, run_loop_drains}
use container_patterns.WorkQueue.System.{idle, crashes, here, later}
use container_patterns.EndToEnd.{Json, Request, place_order}
use container_patterns.EndToEnd.Placed.{Stored, place_order-Stored, place_order-IsTracked}
use container_patterns.EndToEnd.Refused.{place_order-refuses}
use container_patterns.EndToEnd.Batch.{placed_tasks, place_all, IsHeard, place_all-ready}
use container_patterns.EndToEnd.Finished.{place_order-finishes}

-- JSON of an order is its id, JSON of an envelope its payload.
abbrev pub bare : Json
bare = record {
  marshal_order = λ order r. some order;
  order_id_of = λ b. some b;
  marshal_envelope = λ e. some e.payload;
  encode_created = λ id. id;
  encode_error = λ m. m;
  task_id = λ b. some b;
  fulfillable = λ b. some true;
}

abbrev one_order : Request plain bare
one_order = record {
  method = post;
  order = codes "o";
  request = some (record {
    customer_id = codes "c1";
    items = record { sku = codes "A"; qty = pos 1 } ∷ [];
    currency = codes "EUR";
  });
  cart = found;
  available = answered 200 (some (codes "{}"));
  http = replied;
  redis = replied;
  task = codes "t";
  enqueued_at = codes "now";
}

-- The task "p" is ready before it; every task has an envelope.
abbrev one_before : View
one_before = record empty {
  lists = λ k. if bytes_eq k ready_key then codes "p" ∷ [] else [];
  hashes = λ k f. if bytes_eq f payload_field then some (text (codes "e")) else none;
}

one_before-Counted : Counted one_before
unfolding bytes_eq
one_before-Counted id = (1, refl)

one_order_placed :
    (place_order plain bare one_order new_stats one_before).0.0
    ≡ order_response 201 (codes "o") (codes "t") (codes "{}")
unfolding place_order bytes_eq handle_orders enqueue handle_enqueue
one_order_placed = refl

place_order-Stored_example :
    (codes "o" ≡ codes "o")
    × (codes "t" ≡ codes "t")
    × Stored plain bare one_order one_before
        (place_order plain bare one_order new_stats one_before).1
place_order-Stored_example =
    place_order-Stored plain bare one_order new_stats one_before (codes "o") (codes "t")
      (codes "{}") refl one_order_placed

place_order-IsTracked_example :
    IsTracked (place_order plain bare one_order new_stats one_before).1 (codes "t")
place_order-IsTracked_example =
    place_order-IsTracked plain bare one_order new_stats one_before (codes "o") (codes "t")
      (codes "{}") (λ w. idle) _ refl one_before-Counted one_order_placed
      (later here (crashes (codes "a")))

-- The request does not arrive at the coordinator.
abbrev unreached : Request plain bare
unreached = record one_order { http = request_lost }

place_order-refuses_example :
    let (answer, d') = place_order plain bare unreached new_stats one_before in
    ((raw : Bytes) × (answer.0 ≡ order_response 201 (codes "o") (codes "t") raw))
    ⊎ (d' ≡ one_before)
place_order-refuses_example =
    place_order-refuses plain bare unreached new_stats one_before refl (λ e. cc) (λ e. cc) (λ e. cc)

-- One order that is placed, and one whose request is lost.
unreached-IsHeard : IsHeard plain bare unreached
unreached-IsHeard = record { reads = refl; has_task = λ e. cc; http = λ e. cc; redis = λ e. cc }

one_order-IsHeard : IsHeard plain bare one_order
one_order-IsHeard = record { reads = refl; has_task = λ e. cc; http = λ e. cc; redis = λ e. cc }

place_all-ready_example :
    let (rs, last) = place_all plain bare (one_order ∷ unreached ∷ []) new_stats one_before in
    last.1.lists ready_key ≡ one_before.lists ready_key ++ placed_tasks rs
place_all-ready_example =
    place_all-ready plain bare (one_order ∷ unreached ∷ []) new_stats one_before
      (one_order-IsHeard, (unreached-IsHeard, tt))

abbrev same_order : Bytes → Option Bytes
same_order e = some e

abbrev steady : Round plain same_order
steady = record {
  cancelled = false;
  cancelled_after = false;
  before = λ d. d;
  others = λ d. d;
  claim_calls = record { blmove = replied; sismember_replies = true; lrem = replied };
  task_calls = record { zadd = replied; hget_replies = true; lrem = replied; ack = replied };
  visibility = 30;
  now = 7;
  stage = λ e. some true;
}

steady-IsSteady : IsSteady plain same_order steady
steady-IsSteady = record {
  cancelled = refl;
  before = refl;
  others = refl;
  blmove = refl;
  sismember = refl;
  lrem = refl;
  zadd = refl;
  hget = refl;
  ack = refl;
  decides = λ e. (true, refl);
}

one_before_ready : one_before.lists ready_key ≡ codes "p" ∷ []
unfolding bytes_eq ready_key
one_before_ready = refl

one_before_paid : All (HasPayload one_before) (codes "p" ∷ [])
unfolding bytes_eq
one_before_paid = ((λ e. cc, (codes "e", refl)), tt)

one_before_other : elem (codes "t") (codes "p" ∷ []) ≡ false
unfolding elem bytes_eq
one_before_other = refl

run_loop_drains_example :
    Drained
      (codes "p" ∷ [])
      []
      one_before
      (run_loop plain same_order (codes "w") (steady ∷ []) one_before)
run_loop_drains_example =
    run_loop_drains plain same_order (codes "w") (steady ∷ []) (codes "p" ∷ []) [] one_before
      (steady-IsSteady, tt) refl one_before_ready one_before_paid

place_order-finishes_example :
    let v =
      run_loop plain same_order
        (codes "w")
        ((steady ∷ []) ++ steady ∷ [])
        (place_order plain bare one_order new_stats one_before).1 in
    (v.sets done_key (codes "t") ≡ true)
    × (v.sets settle_pending_key (codes "o") ≡ true)
    × (v.lists ready_key ≡ [])
place_order-finishes_example =
    place_order-finishes plain bare same_order one_order new_stats one_before (codes "o")
      (codes "t") (codes "{}") (codes "w") (codes "p" ∷ []) (steady ∷ []) steady refl
      (λ r body envelope b e. some_order body envelope b e) (λ e. cc) (λ e. cc) one_before_ready
      one_before_paid one_before_other refl (steady-IsSteady, tt) refl steady-IsSteady (λ e. refl)
      one_order_placed
  where
    some_order :
        (body envelope : Bytes)
        → some (codes "o") ≡ some body
        → some body ≡ some envelope
        → some envelope ≡ some (codes "o")
    some_order body envelope b e = cc
