-- ===== src/OrderApi/Orders.antt =====
-- handleOrders and what it calls, of services/order-api/main.go: postJSON, checkAvailability, enqueue and
-- readCart. How the calls over the network end, what JSON decodes to and the new order's id are
-- parameters; what is logged is in container_patterns.OrderApi.Log. with_access_log is withAccessLog of services/order-api/logger.go.
pub mod Counts
use container_patterns.Common.{
  ℕ, Bool, true, false, ◌||◌, Option, none, some, List, [], ◌∷◌, Bytes, codes, ltb, leb,
  if◌then◌else◌,
}
use container_patterns.Decimal.{ℤ}
use container_patterns.OrderApi.Stats.{
  Stats, order_received, order_done, order_placed, order_rejected, cache_hit, cache_miss,
  record_http,
}

pub record Item : Type 0 where
  pub sku : Bytes
  pub qty : ℤ

pub record OrderRequest : Type 0 where
  pub customer_id : Bytes
  pub items : List Item
  pub currency : Bytes

pub data Method : Type 0 where
  post : Method
  other : Method

-- How a POST of JSON ends: it is not answered, or with a status and a body, which may be unreadable.
pub data PostCall : Type 0 where
  no_answer : PostCall
  answered : ℕ → Option Bytes → PostCall

pub data CartRead : Type 0 where
  found : CartRead
  absent : CartRead
  failed : CartRead

-- A response: an error under a status, or the order's, with its task and its availability.
pub data Response : Type 0 where
  failure : ℕ → Bytes → Response
  order_response : ℕ → Bytes → Bytes → Bytes → Response

abbrev pub status_of : Response → ℕ
status_of (failure status text) = status
status_of (order_response status order task availability) = status

unfoldable pub post_json : PostCall → Option Bytes
post_json no_answer = none
post_json (answered status none) = none
post_json (answered status (some body)) =
    if ltb status 200 || leb 300 status then none else some body

unfoldable pub read_cart : CartRead → Stats → Stats
read_cart found s = cache_hit s
read_cart absent s = cache_miss s
read_cart failed s = cache_miss s

module _ (fulfillable : Bytes → Option Bool) (task_id : Bytes → Option Bytes) where
  abbrev pub decoded_availability : Bytes → Option Bool → Option (Bytes × Bool)
  decoded_availability raw none = none
  decoded_availability raw (some b) = some (raw, b)

  abbrev pub availability_of : Option Bytes → Option (Bytes × Bool)
  availability_of none = none
  availability_of (some raw) = decoded_availability raw (fulfillable raw)

  unfoldable pub check_availability : PostCall → Option (Bytes × Bool)
  unfolding post_json
  check_availability call = availability_of (post_json call)

  -- A task id that is missing or empty is an error.
  abbrev pub named : Option Bytes → Option Bytes
  named none = none
  named (some []) = none
  named (some (c ∷ cs)) = some (c ∷ cs)

  abbrev pub task_of : Option Bytes → Option Bytes
  task_of none = none
  task_of (some raw) = named (task_id raw)

  unfoldable pub enqueue : PostCall → Option Bytes
  unfolding post_json
  enqueue call = task_of (post_json call)

  -- The end of handleOrders, after the call of enqueue.
  abbrev pub after_enqueue : Bytes → Bytes → Option Bytes → Stats → Response × Stats
  after_enqueue order availability none s = (failure 502 (codes "enqueue failed"), order_rejected s)
  after_enqueue order availability (some task) s =
      (order_response 201 order task availability, order_placed s)

  abbrev pub after_availability :
      Bytes → Option (Bytes × Bool) → PostCall → Stats → Response × Stats
  after_availability order none call s =
      (failure 502 (codes "availability check failed"), order_rejected s)
  after_availability order (some (raw, false)) call s =
      (order_response 200 order [] raw, order_rejected s)
  after_availability order (some (raw, true)) call s = after_enqueue order raw (enqueue call) s

  abbrev pub invalid : Stats → Response × Stats
  invalid s = (failure 400 (codes "invalid order request"), order_rejected s)

  -- The rest of it, for a customer and items; neither may be empty.
  abbrev pub take_items :
      Bytes → Bytes → List Item → CartRead → PostCall → PostCall → Stats → Response × Stats
  take_items order [] items cart available queued s = invalid s
  take_items order (c ∷ cs) [] cart available queued s = invalid s
  take_items order (c ∷ cs) (i ∷ is) cart available queued s =
      after_availability order (check_availability available) queued (read_cart cart s)

  -- The decoded body: none if it cannot be decoded.
  abbrev pub take_order :
      Bytes → Option OrderRequest → CartRead → PostCall → PostCall → Stats → Response × Stats
  take_order order none cart available queued s = invalid s
  take_order order (some r) cart available queued s =
      take_items order r.customer_id r.items cart available queued s

  -- The deferred orderDone.
  abbrev pub finally_done : Response × Stats → Response × Stats
  finally_done (r, s) = (r, order_done s)

  unfoldable pub handle_orders :
      Method
      → Bytes
      → Option OrderRequest
      → CartRead
      → PostCall
      → PostCall
      → Stats
      → Response × Stats
  handle_orders other order req cart available queued s =
      (failure 405 (codes "method not allowed"), s)
  handle_orders post order req cart available queued s =
      finally_done (take_order order req cart available queued (order_received s))

-- withAccessLog, around a handler's outcome.
unfoldable pub with_access_log : ℕ → Response × Stats → Response × Stats
with_access_log us (r, s) = (r, record_http (status_of r) us s)
