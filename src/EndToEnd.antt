-- ===== src/EndToEnd.antt =====
-- An order on its way from handleOrders of services/order-api/main.go to handleEnqueue of
-- services/workqueue-coordinator/enqueue.go: the two handlers, joined by the call of postJSON. JSON is
-- a parameter in both directions, and so is how the call over HTTP ends.
pub mod Sent
pub mod Created
pub mod Placed
pub mod Refused
pub mod Finished
pub mod Availability
pub mod Batch
mod Tests
use container_patterns.Common.{
  ℕ, Bool, true, false, Option, none, some, List, [], ◌∷◌, Bytes, length, leb, ◌^◌, if◌then◌else◌,
}
use container_patterns.OrderApi.Stats.{Stats}
use container_patterns.OrderApi.Orders.{
  Item, OrderRequest, Method, post, other, PostCall, no_answer, answered, CartRead, Response,
  check_availability, handle_orders,
}
use container_patterns.WorkQueue.Redis.{Redis}
use container_patterns.WorkQueue.Coordinator.{
  Call, replied, request_lost, reply_lost, TaskEnvelope, EnqueueReply, created, refused,
  handle_enqueue,
}

-- The JSON that goes between the two: enqueueRequest and what the coordinator reads of it, the envelope,
-- and the two answers with what order-api reads of the first.
pub record Json : Type 0 where
  pub marshal_order : Bytes → OrderRequest → Option Bytes
  pub order_id_of : Bytes → Option Bytes
  pub marshal_envelope : TaskEnvelope → Option Bytes
  pub encode_created : Bytes → Bytes
  pub encode_error : Bytes → Bytes
  pub task_id : Bytes → Option Bytes
  pub fulfillable : Bytes → Option Bool

-- Whether an order with this customer, these items and this availability is enqueued.
unfoldable pub is_sent : Bytes → List Item → Option (Bytes × Bool) → Bool
is_sent [] items availability = false
is_sent (c ∷ cs) [] availability = false
is_sent (c ∷ cs) (i ∷ is) none = false
is_sent (c ∷ cs) (i ∷ is) (some (raw, ok)) = ok

-- maxBodyBytes, which MaxBytesReader enforces.
abbrev pub max_body_bytes : ℕ
max_body_bytes = 2 ^ 20

unfoldable pub read_body : Bytes → Option Bytes
read_body body = if leb (length body) max_body_bytes then some body else none

module _ (R : Redis) (J : Json) where
  open R use {Db}

  -- The order that handleOrders passes to enqueue, if it comes there.
  unfoldable pub sends : Method → Option OrderRequest → PostCall → Option OrderRequest
  unfolding is_sent check_availability
  sends other req available = none
  sends post none available = none
  sends post (some r) available =
      if is_sent r.customer_id r.items (check_availability J.fulfillable J.task_id available)
      then some r
      else none

  -- writeJSON and writeError of enqueue.go, as order-api sees them.
  unfoldable pub respond : EnqueueReply → PostCall
  respond (created id) = answered 201 (some (J.encode_created id))
  respond (refused status message) = answered status (some (J.encode_error message))

  -- The coordinator at a body that has reached it.
  unfoldable pub coordinate : Call → Bytes → Bytes → Bytes → Db → EnqueueReply × Db
  unfolding read_body
  coordinate redis task_id enqueued_at body d =
      handle_enqueue R J.order_id_of J.marshal_envelope redis true (read_body body) task_id
        enqueued_at d

  -- postJSON of /enqueue: `http` is how the call over HTTP ends, `redis` how the coordinator's
  -- transaction does.
  unfoldable pub post_enqueue : Call → Call → Bytes → Bytes → Option Bytes → Db → PostCall × Db
  unfolding respond coordinate
  post_enqueue http redis task_id enqueued_at none d = (no_answer, d)
  post_enqueue request_lost redis task_id enqueued_at (some body) d = (no_answer, d)
  post_enqueue replied redis task_id enqueued_at (some body) d =
      let (reply, d') = coordinate redis task_id enqueued_at body d in (respond reply, d')
  post_enqueue reply_lost redis task_id enqueued_at (some body) d =
      (no_answer, (coordinate redis task_id enqueued_at body d).1)

  -- What the two services do with one request: its new order's id and its new task's, the time at the
  -- coordinator, and how the calls end.
  pub record Request : Type 0 where
    pub method : Method
    pub order : Bytes
    pub request : Option OrderRequest
    pub cart : CartRead
    pub available : PostCall
    pub http : Call
    pub redis : Call
    pub task : Bytes
    pub enqueued_at : Bytes

  -- handleOrders, with the answer of enqueue.
  abbrev pub serve : Request → PostCall → Stats → Response × Stats
  serve q call s =
      handle_orders J.fulfillable J.task_id q.method q.order q.request q.cart q.available call s

  abbrev pub place_sent : Request → Option OrderRequest → Stats → Db → (Response × Stats) × Db
  place_sent q none s d = (serve q no_answer s, d)
  place_sent q (some r) s d =
      let (call, d') =
        post_enqueue q.http q.redis q.task q.enqueued_at (J.marshal_order q.order r) d in
      (serve q call s, d')

  unfoldable pub place_order : Request → Stats → Db → (Response × Stats) × Db
  unfolding sends post_enqueue
  place_order q s d = place_sent q (sends q.method q.request q.available) s d
