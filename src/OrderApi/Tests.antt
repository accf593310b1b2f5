-- ===== src/OrderApi/Tests.antt =====
-- An order that goes through, and the theorems at it.
use container_patterns.Common.{
  ◌+◌, ◌%◌, ◌^◌, ◌≡◌, refl, Bytes, ◌==◌, if◌then◌else◌, true, some, List, [], ◌∷◌, ◌++◌, map, arith,
  codes,
}
use container_patterns.Decimal.{pos}
use container_patterns.Environment.{split}
use container_patterns.OrderApi.Stats.{new_stats, order_received, order_placed}
use container_patterns.OrderApi.Concurrent.{
  Api, received, asking, decided, arrives, reads_cart, places, Reach, here, later,
}
use container_patterns.OrderApi.Concurrent.Totals.{
  started, active, undecided, total, counters_tally,
}
use container_patterns.OrderApi.Concurrent.Single.{handle_orders-Reach}
use container_patterns.OrderApi.Log.{Request}
use container_patterns.OrderApi.Log.Events.Placed.{
  Order, placed_events, serve_orders, all_events, json_of, app_log_lines,
}
use container_patterns.OrderApi.Log.Lines.{IsLine, no_files}
use container_patterns.OrderApi.Orders.{
  OrderRequest, post, PostCall, answered, found, failed, handle_orders, read_cart, with_access_log,
}

abbrev one_item : OrderRequest
one_item = record {
  customer_id = codes "c1";
  items = record { sku = codes "A"; qty = pos 1 } ∷ [];
  currency = codes "EUR";
}

abbrev reply : PostCall
reply = answered 200 (some (codes "{}"))

-- The handler beside two other orders.
abbrev busy : Api
busy = record { stats = new_stats; requests = asking ∷ decided 201 ∷ [] }

handle_orders-Reach_example : Reach busy (record busy {
  stats =
      (with_access_log 900 (
        handle_orders
          (λ b. some true)
          (λ b. some (codes "t1"))
          post
          (codes "o1")
          (some one_item)
          found
          reply
          reply
          new_stats)).1;
})
handle_orders-Reach_example =
    handle_orders-Reach (λ b. some true) (λ b. some (codes "t1")) 900 post (codes "o1")
      (some one_item) found reply reply busy (omega arith)

-- Two orders, of which the second is placed before the first is decided.
abbrev placed_one : Api
placed_one = record {
  stats = order_placed (read_cart found (order_received (order_received new_stats)));
  requests = decided 201 ∷ received ∷ [];
}

two_orders : Reach started placed_one
two_orders =
    later
      (later (later (later here (arrives (omega arith))) (arrives (omega arith)))
        (reads_cart found [] (received ∷ []) refl))
      (places [] (received ∷ []) refl)

counters_tally_example :
    (placed_one.stats.in_flight ≡ total active placed_one.requests)
    × (placed_one.stats.received
        ≡ (placed_one.stats.placed
            + placed_one.stats.rejected
            + total undecided placed_one.requests)
          % 2 ^ 64)
    × (placed_one.requests ≡ []
        → (placed_one.stats.in_flight ≡ 0)
          × (placed_one.stats.received
              ≡ (placed_one.stats.placed + placed_one.stats.rejected) % 2 ^ 64))
counters_tally_example = counters_tally two_orders

-- The JSON of a line is its order's id, if that has no newline.
abbrev sanitized : Bytes → Bytes
sanitized [] = []
sanitized (c ∷ cs) = (if c == b'\n' then b' ' else c) ∷ sanitized cs

sanitized-IsLine : (s : Bytes) → IsLine (sanitized s)
sanitized-IsLine [] = tt
sanitized-IsLine (c ∷ cs) = ((λ e. ground arith), sanitized-IsLine cs)

abbrev request : Bytes → Request
request order = record {
  now = codes "t";
  method = codes "POST";
  path = codes "/orders";
  status = 201;
  latency_us = 900;
  order_id = order;
}

abbrev requests : List Request
requests = request (codes "o1") ∷ request (codes "o2") ∷ []

-- One order that is placed, behind a cart that could not be read.
abbrev placed_order : Order
placed_order = record {
  method = post;
  order_id = codes "o1";
  request = some one_item;
  cart = failed;
  written = true;
  available = reply;
  queued = reply;
}

app_log_lines_example :
    let (s, l) =
      serve_orders
        (λ b. some true)
        (λ b. some (codes "t1"))
        (λ l. some (sanitized l.msg))
        (λ e. codes "t")
        (placed_order ∷ [])
        (new_stats, no_files) in
    (split l.app_file b'\n'
      ≡ map
          (json_of
            (λ b. some true)
            (λ b. some (codes "t1"))
            (λ l. some (sanitized l.msg))
            (λ e. codes "t")
            (λ l. sanitized l.msg)
            (λ l. refl))
          (all_events (λ b. some true) (λ b. some (codes "t1")) (placed_order ∷ []))
        ++ [] ∷ [])
    × (s.placed % 2 ^ 64
        ≡ placed_events (all_events (λ b. some true) (λ b. some (codes "t1")) (placed_order ∷ []))
          % 2 ^ 64)
app_log_lines_example =
    app_log_lines (λ b. some true) (λ b. some (codes "t1")) (λ l. some (sanitized l.msg))
      (λ e. codes "t") (λ l. sanitized l.msg) (λ l. refl) (λ l. sanitized-IsLine l.msg)
      (placed_order ∷ [])
