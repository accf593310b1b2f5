-- ===== src/OrderApi/Log/Events/Placed.antt =====
-- The lines of app.log tell how the orders ended, as the counters do.
use container_patterns.Common.{
  ℕ, ◌+◌, ◌%◌, ◌^◌, ◌≡◌, refl, sym, ap, ◌∙◌, arith, Bool, true, false, Option, none, some, List, [],
  ◌∷◌, ◌++◌, append-nil, append_assoc, map, Bytes, All, bytes_eq, codes, if◌then◌else◌,
}
use container_patterns.Environment.{split}
use container_patterns.OrderApi.Stats.{
  Stats, new_stats, next, order_received, order_done, order_placed, order_rejected,
}
use container_patterns.OrderApi.Orders.{
  Item, OrderRequest, Method, post, other, PostCall, CartRead, found, absent, failed, read_cart,
  check_availability, enqueue, handle_orders, take_items, after_availability, after_enqueue,
}
use container_patterns.OrderApi.Concurrent.Totals.{read_cart_orders}
use container_patterns.OrderApi.Log.{LogLine, Logger, app_line, appended, app}
use container_patterns.OrderApi.Log.Lines.{IsLine, lines_of, no_files, split-lines_of}
use container_patterns.OrderApi.Log.Events.{
  Event, read_events, write_events, invalid_event, enqueue_event, decision_event, items_events,
  order_events, log_events,
}

-- One order, with how its calls end.
pub record Order : Type 0 where
  pub method : Method
  pub order_id : Bytes
  pub request : Option OrderRequest
  pub cart : CartRead
  pub written : Bool
  pub available : PostCall
  pub queued : PostCall

-- How many of the events say that an order was placed.
abbrev pub placed_events : List Event → ℕ
placed_events [] = 0
placed_events (e ∷ es) = (if bytes_eq e.msg (codes "order placed") then 1 else 0) + placed_events es

placed_events-append :
    (xs ys : List Event) → placed_events (xs ++ ys) ≡ placed_events xs + placed_events ys
placed_events-append [] ys = omega arith
placed_events-append (x ∷ xs) ys = omega (arith, placed_events-append xs ys)

-- What an order adds to ordersPlaced.
abbrev Adds : ℕ → Stats → Stats → Type 0
Adds n s s' = s'.placed % 2 ^ 64 ≡ (s.placed + n) % 2 ^ 64

cart_events-placed :
    (cart : CartRead) (written : Bool) (e : Event)
    → placed_events (read_events cart ++ (write_events written ++ e ∷ [])) ≡ placed_events (e ∷ [])
unfolding bytes_eq
cart_events-placed found true e = refl
cart_events-placed found false e = omega arith
cart_events-placed absent true e = refl
cart_events-placed absent false e = omega arith
cart_events-placed failed true e = omega arith
cart_events-placed failed false e = omega arith

lines_of-append :
    (f : Event → Bytes) (xs ys : List Event)
    → lines_of (map f (xs ++ ys)) ≡ lines_of (map f xs) ++ lines_of (map f ys)
lines_of-append f [] ys = refl
lines_of-append f (x ∷ xs) ys =
    ap (◌++◌ (f x ++ b'\n' ∷ [])) (lines_of-append f xs ys)
    ∙ sym (append_assoc (f x ++ b'\n' ∷ []) (lines_of (map f xs)) (lines_of (map f ys)))

module _ (fulfillable : Bytes → Option Bool) (task_id : Bytes → Option Bytes) where
  after_enqueue-Adds :
      (order raw : Bytes) (task : Option Bytes) (s : Stats)
      → Adds
          (placed_events (enqueue_event order task ∷ []))
          s
          (after_enqueue fulfillable task_id order raw task s).1
  unfolding order_rejected order_placed next bytes_eq
  after_enqueue-Adds order raw none s = omega arith
  after_enqueue-Adds order raw (some task) s = omega arith

  after_availability-Adds :
      (order : Bytes) (available : Option (Bytes × Bool)) (queued : PostCall) (s : Stats)
      → Adds
          (placed_events (decision_event fulfillable task_id order available queued ∷ []))
          s
          (after_availability fulfillable task_id order available queued s).1
  unfolding order_rejected bytes_eq
  after_availability-Adds order none queued s = omega arith
  after_availability-Adds order (some (raw, false)) queued s = omega arith
  after_availability-Adds order (some (raw, true)) queued s =
      after_enqueue-Adds order raw (enqueue fulfillable task_id queued) s

  invalid-Adds : (s : Stats) → Adds (placed_events (invalid_event ∷ [])) s (order_rejected s)
  unfolding order_rejected bytes_eq
  invalid-Adds s = omega arith

  take_items-Adds :
      (order customer : Bytes) (items : List Item) (cart : CartRead) (written : Bool)
      (available queued : PostCall) (s : Stats)
      → Adds
          (placed_events
            (items_events fulfillable task_id order customer items cart written available queued))
          s
          (take_items fulfillable task_id order customer items cart available queued s).1
  take_items-Adds order [] items cart written available queued s = invalid-Adds s
  take_items-Adds order (c ∷ cs) [] cart written available queued s = invalid-Adds s
  take_items-Adds order (c ∷ cs) (i ∷ is) cart written available queued s =
      let end = check_availability fulfillable task_id available in
      omega (
        arith,
        cart_events-placed cart written (decision_event fulfillable task_id order end queued),
        (read_cart_orders cart s).2,
        after_availability-Adds order end queued (read_cart cart s),
      )

  handle_orders-Adds :
      (m : Method) (order : Bytes) (req : Option OrderRequest) (cart : CartRead) (written : Bool)
      (available queued : PostCall) (s : Stats)
      → Adds
          (placed_events
            (order_events fulfillable task_id m order req cart written available queued))
          s
          (handle_orders fulfillable task_id m order req cart available queued s).1
  unfolding handle_orders order_events order_received order_done
  handle_orders-Adds other order req cart written available queued s = omega arith
  handle_orders-Adds post order none cart written available queued s =
      invalid-Adds (order_received s)
  handle_orders-Adds post order (some r) cart written available queued s =
      take_items-Adds order r.customer_id r.items cart written available queued (order_received s)

  -- What an order's handler writes.
  abbrev pub events_of : Order → List Event
  events_of o =
      order_events fulfillable task_id o.method o.order_id o.request o.cart o.written o.available
        o.queued

  -- The orders, handled one after the other, on the counters and the log.
  abbrev pub serve_orders :
      (LogLine → Option Bytes) → (Event → Bytes) → List Order → Stats × Logger → Stats × Logger
  serve_orders marshal now [] s = s
  serve_orders marshal now (o ∷ os) (s, l) = serve_orders marshal now os (
    (handle_orders fulfillable task_id o.method o.order_id o.request o.cart o.available o.queued
        s).1,
    log_events marshal now (events_of o) l,
  )

  abbrev pub all_events : List Order → List Event
  all_events [] = []
  all_events (o ∷ os) = events_of o ++ all_events os

  module _ (marshal : LogLine → Option Bytes) (now : Event → Bytes) (json : LogLine → Bytes)
      (marshals : (l : LogLine) → marshal l ≡ some (json l)) where
    abbrev pub json_of : Event → Bytes
    json_of e = json (app_line (now e) e.level e.msg e.order_id)

    app_file-log_events :
        (es : List Event) (l : Logger)
        → (log_events marshal now es l).app_file ≡ l.app_file ++ lines_of (map json_of es)
    unfolding log_events app
    app_file-log_events [] l = sym (append-nil l.app_file)
    app_file-log_events (e ∷ es) l =
        app_file-log_events es (app marshal (now e) e.level e.msg e.order_id l)
        ∙ ap (λ b. appended l.app_file b ++ lines_of (map json_of es))
            (marshals (app_line (now e) e.level e.msg e.order_id))
        ∙ append_assoc l.app_file (json_of e ++ b'\n' ∷ []) (lines_of (map json_of es))

    serve_orders-lines :
        (os : List Order) (s : Stats) (l : Logger)
        → (serve_orders marshal now os (s, l)).1.app_file
          ≡ l.app_file ++ lines_of (map json_of (all_events os))
    serve_orders-lines [] s l = sym (append-nil l.app_file)
    serve_orders-lines (o ∷ os) s l =
        let s' =
          (handle_orders fulfillable task_id o.method o.order_id o.request o.cart o.available
            o.queued s).1 in
        serve_orders-lines os s' (log_events marshal now (events_of o) l)
        ∙ ap (λ f. f ++ lines_of (map json_of (all_events os)))
            (app_file-log_events (events_of o) l)
        ∙ append_assoc l.app_file (lines_of (map json_of (events_of o)))
            (lines_of (map json_of (all_events os)))
        ∙ ap (◌++◌ l.app_file) (sym (lines_of-append json_of (events_of o) (all_events os)))

    serve_orders-placed :
        (os : List Order) (s : Stats) (l : Logger)
        → Adds (placed_events (all_events os)) s (serve_orders marshal now os (s, l)).0
    serve_orders-placed [] s l = omega arith
    serve_orders-placed (o ∷ os) s l =
        let s' =
          (handle_orders fulfillable task_id o.method o.order_id o.request o.cart o.available
            o.queued s).1 in
        omega (
          arith,
          placed_events-append (events_of o) (all_events os),
          handle_orders-Adds o.method o.order_id o.request o.cart o.written o.available o.queued s,
          serve_orders-placed os s' (log_events marshal now (events_of o) l),
        )

    json_lines : (es : List Event) → ((l : LogLine) → IsLine (json l)) → All IsLine (map json_of es)
    json_lines [] h = tt
    json_lines (e ∷ es) h = (h (app_line (now e) e.level e.msg e.order_id), json_lines es h)

    -- From empty files and new counters on, if each line's JSON is on one line: after any orders, handled one
    -- after the other, splitting app.log at its newlines gives the JSON of their events in order, and
    -- an empty rest; and ordersPlaced is, in 64 bits, the number of the events "order placed".
    pub app_log_lines :
        ((l : LogLine) → IsLine (json l))
        → (os : List Order)
        → let (s, l) = serve_orders marshal now os (new_stats, no_files) in
          (split l.app_file b'\n' ≡ map json_of (all_events os) ++ [] ∷ [])
          × (s.placed % 2 ^ 64 ≡ placed_events (all_events os) % 2 ^ 64)
    unfolding new_stats
    app_log_lines single os = (
      ap (λ f. split f b'\n') (serve_orders-lines os new_stats no_files)
          ∙ split-lines_of (map json_of (all_events os)) (json_lines (all_events os) single),
      omega (arith, serve_orders-placed os new_stats no_files),
    )
