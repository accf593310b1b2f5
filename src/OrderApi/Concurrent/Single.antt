-- ===== src/OrderApi/Concurrent/Single.antt =====
-- A handler alone is a run of the steps.
use container_patterns.Common.{
  ℕ, suc, ◌^◌, ◌<◌, refl, Bool, true, false, Option, none, some, List, [], ◌∷◌, Bytes, length,
}
use container_patterns.OrderApi.Stats.{
  Stats, order_received, order_done, order_placed, order_rejected, record_http,
}
use container_patterns.OrderApi.Orders.{
  Item, OrderRequest, Method, post, other, PostCall, CartRead, read_cart, check_availability,
  enqueue, after_enqueue, after_availability, invalid, take_items, take_order, finally_done,
  handle_orders, with_access_log,
}
use container_patterns.OrderApi.Concurrent.{
  Stage, received, asking, decided, Api, arrives, passes_by, is_invalid, reads_cart, rejects,
  places, is_done, is_recorded, Reach, here, later,
}

module _ (fulfillable : Bytes → Option Bool) (task_id : Bytes → Option Bytes) where
  -- What comes after the decision: orderDone and recordHTTP.
  decided-Reach :
      (status us : ℕ) (a : Api) (s : Stats) (rs : List Stage)
      → Reach a (record { stats = s; requests = decided status ∷ rs })
      → Reach a (record { stats = record_http status us (order_done s); requests = rs })
  decided-Reach status us a s rs r =
      later (later r (is_done status [] rs refl)) (is_recorded status us [] rs refl)

  after_enqueue-Reach :
      (us : ℕ) (order raw : Bytes) (task : Option Bytes) (a : Api) (s : Stats) (rs : List Stage)
      → Reach a (record { stats = s; requests = asking ∷ rs })
      → Reach a (record {
        stats =
            (with_access_log us (
              finally_done fulfillable task_id
                (after_enqueue fulfillable task_id order raw task s))).1;
        requests = rs;
      })
  unfolding with_access_log
  after_enqueue-Reach us order raw none a s rs r =
      decided-Reach 502 us a (order_rejected s) rs (later r (rejects 502 [] rs refl))
  after_enqueue-Reach us order raw (some task) a s rs r =
      decided-Reach 201 us a (order_placed s) rs (later r (places [] rs refl))

  after_availability-Reach :
      (us : ℕ) (order : Bytes) (available : Option (Bytes × Bool)) (queued : PostCall) (a : Api)
      (s : Stats) (rs : List Stage)
      → Reach a (record { stats = s; requests = asking ∷ rs })
      → Reach a (record {
        stats =
            (with_access_log us (
              finally_done fulfillable task_id
                (after_availability fulfillable task_id order available queued s))).1;
        requests = rs;
      })
  unfolding with_access_log
  after_availability-Reach us order none queued a s rs r =
      decided-Reach 502 us a (order_rejected s) rs (later r (rejects 502 [] rs refl))
  after_availability-Reach us order (some (raw, false)) queued a s rs r =
      decided-Reach 200 us a (order_rejected s) rs (later r (rejects 200 [] rs refl))
  after_availability-Reach us order (some (raw, true)) queued a s rs r =
      after_enqueue-Reach us order raw (enqueue fulfillable task_id queued) a s rs r

  invalid-Reach :
      (us : ℕ) (a : Api) (s : Stats) (rs : List Stage)
      → Reach a (record { stats = s; requests = received ∷ rs })
      → Reach a (record {
        stats =
            (with_access_log us
              (finally_done fulfillable task_id (invalid fulfillable task_id s))).1;
        requests = rs;
      })
  unfolding with_access_log
  invalid-Reach us a s rs r =
      decided-Reach 400 us a (order_rejected s) rs (later r (is_invalid [] rs refl))

  take_order-Reach :
      (us : ℕ) (order : Bytes) (req : Option OrderRequest) (cart : CartRead)
      (available queued : PostCall) (a : Api) (s : Stats) (rs : List Stage)
      → Reach a (record { stats = s; requests = received ∷ rs })
      → Reach a (record {
        stats =
            (with_access_log us (
              finally_done fulfillable task_id
                (take_order fulfillable task_id order req cart available queued s))).1;
        requests = rs;
      })
  take_order-Reach us order none cart available queued a s rs r = invalid-Reach us a s rs r
  take_order-Reach us order (some q) cart available queued a s rs r = items q.customer_id q.items
    where
      items :
          (customer : Bytes) (is : List Item)
          → Reach a (record {
            stats =
                (with_access_log us (
                  finally_done fulfillable task_id
                    (take_items fulfillable task_id order customer is cart available queued s))).1;
            requests = rs;
          })
      items [] is = invalid-Reach us a s rs r
      items (c ∷ cs) [] = invalid-Reach us a s rs r
      items (c ∷ cs) (i ∷ is) =
          after_availability-Reach us order (check_availability fulfillable task_id available)
            queued a (read_cart cart s) rs (later r (reads_cart cart [] rs refl))

  -- Whatever requests are under way, handling one more from its arrival to its access log entry changes
  -- the counters just as a run of the interleaved steps does, and leaves the other requests where they
  -- stand.
  pub handle_orders-Reach :
      (us : ℕ) (m : Method) (order : Bytes) (req : Option OrderRequest) (cart : CartRead)
      (available queued : PostCall) (a : Api)
      → suc (length a.requests) < 2 ^ 63
      → Reach a (record a {
        stats =
            (with_access_log us
              (handle_orders fulfillable task_id m order req cart available queued a.stats)).1;
      })
  unfolding handle_orders with_access_log
  handle_orders-Reach us post order req cart available queued a h =
      take_order-Reach us order req cart available queued a (order_received a.stats) a.requests
        (later here (arrives h))
  handle_orders-Reach us other order req cart available queued a h =
      later (later here (passes_by 405 h)) (is_recorded 405 us [] a.requests refl)
