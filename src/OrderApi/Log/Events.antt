-- ===== src/OrderApi/Log/Events.antt =====
-- The events that handleOrders and readCart of services/order-api/main.go write to app.log, in their
-- order. Of an event's fields only the order's id reaches the line. `written` is whether the SET of
-- readCart succeeded.
pub mod Placed
use container_patterns.Common.{
  Bool, true, false, Option, none, some, List, [], ◌∷◌, ◌++◌, Bytes, codes,
}
use container_patterns.OrderApi.Orders.{
  Item, OrderRequest, Method, post, other, PostCall, CartRead, found, absent, failed,
  check_availability, enqueue,
}
use container_patterns.OrderApi.Log.{LogLine, Logger, app}

pub record Event : Type 0 where
  pub level : Bytes
  pub msg : Bytes
  pub order_id : Bytes

abbrev pub read_events : CartRead → List Event
read_events found = []
read_events absent = []
read_events failed =
    record { level = codes "warn"; msg = codes "cache read error"; order_id = [] } ∷ []

abbrev pub write_events : Bool → List Event
write_events true = []
write_events false =
    record { level = codes "warn"; msg = codes "cache write error"; order_id = [] } ∷ []

abbrev pub invalid_event : Event
invalid_event = record { level = codes "warn"; msg = codes "invalid order request"; order_id = [] }

abbrev pub enqueue_event : Bytes → Option Bytes → Event
enqueue_event order none = record {
  level = codes "error";
  msg = codes "enqueue failed";
  order_id = order;
}
enqueue_event order (some task) = record {
  level = codes "info";
  msg = codes "order placed";
  order_id = order;
}

module _ (fulfillable : Bytes → Option Bool) (task_id : Bytes → Option Bytes) where
  abbrev pub decision_event : Bytes → Option (Bytes × Bool) → PostCall → Event
  decision_event order none call = record {
    level = codes "error";
    msg = codes "availability check failed";
    order_id = order;
  }
  decision_event order (some (raw, false)) call = record {
    level = codes "info";
    msg = codes "order rejected: not fulfillable";
    order_id = order;
  }
  decision_event order (some (raw, true)) call =
      enqueue_event order (enqueue fulfillable task_id call)

  abbrev pub items_events :
      Bytes → Bytes → List Item → CartRead → Bool → PostCall → PostCall → List Event
  items_events order [] items cart written available queued = invalid_event ∷ []
  items_events order (c ∷ cs) [] cart written available queued = invalid_event ∷ []
  items_events order (c ∷ cs) (i ∷ is) cart written available queued =
      read_events cart
      ++ (write_events written
          ++ decision_event order (check_availability fulfillable task_id available) queued ∷ [])

  unfoldable pub order_events :
      Method → Bytes → Option OrderRequest → CartRead → Bool → PostCall → PostCall → List Event
  order_events other order req cart written available queued = []
  order_events post order none cart written available queued = invalid_event ∷ []
  order_events post order (some r) cart written available queued =
      items_events order r.customer_id r.items cart written available queued

-- The events are written one after the other, each at its time.
unfoldable pub log_events :
    (LogLine → Option Bytes) → (Event → Bytes) → List Event → Logger → Logger
log_events marshal now [] l = l
log_events marshal now (e ∷ es) l =
    log_events marshal now es (app marshal (now e) e.level e.msg e.order_id l)
