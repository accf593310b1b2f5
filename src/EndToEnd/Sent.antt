-- ===== src/EndToEnd/Sent.antt =====
-- What handleOrders answers, from what enqueue gives it.
use container_patterns.Common.{
  ◌≢◌, ◌≡◌, refl, sym, ap, ◌∙◌, Bool-cases, inl, inr, Bool, true, false, Option, none, some, List,
  [], ◌∷◌, Bytes, codes, arith,
}
use container_patterns.OrderApi.Stats.{Stats, order_received}
use container_patterns.OrderApi.Orders.{
  Item, OrderRequest, post, other, Method, PostCall, CartRead, Response, failure, order_response,
  check_availability, status_of, enqueue, after_enqueue, after_availability, finally_done,
  take_items, handle_orders, read_cart,
}
use container_patterns.WorkQueue.Redis.{Redis}
use container_patterns.EndToEnd.{Json, is_sent, sends, Request, serve}

-- The response that enqueue's result leads to.
abbrev pub outcome : Bytes → Bytes → Option Bytes → Response
outcome order raw none = failure 502 (codes "enqueue failed")
outcome order raw (some task) = order_response 201 order task raw

-- A response that is not answered by 201.
abbrev pub IsRefusal : Response → Type 0
IsRefusal r = status_of r ≢ 201

module _ (fulfillable : Bytes → Option Bool) (task_id : Bytes → Option Bytes) where
  after_enqueue-outcome :
      (order raw : Bytes) (o : Option Bytes) (s : Stats)
      → (after_enqueue fulfillable task_id order raw o s).0 ≡ outcome order raw o
  after_enqueue-outcome order raw none s = refl
  after_enqueue-outcome order raw (some t) s = refl

  finally_done-response : (p : Response × Stats) → (finally_done fulfillable task_id p).0 ≡ p.0
  finally_done-response (r, s) = refl

  -- take_items, from whether the order is sent.
  take_items_sent :
      (order customer : Bytes) (items : List Item) (cart : CartRead) (available call : PostCall)
      (s : Stats)
      → is_sent customer items (check_availability fulfillable task_id available) ≡ true
      → (raw : Bytes) × (check_availability fulfillable task_id available ≡ some (raw, true))
        × ((take_items fulfillable task_id order customer items cart available call s).0
            ≡ outcome order raw (enqueue fulfillable task_id call))
  unfolding is_sent
  take_items_sent order [] items cart available call s h = cc
  take_items_sent order (c ∷ cs) [] cart available call s h = cc
  take_items_sent order (c ∷ cs) (i ∷ is) cart available call s h =
      split (check_availability fulfillable task_id available) refl h
    where
      split :
          (o : Option (Bytes × Bool))
          → check_availability fulfillable task_id available ≡ o
          → is_sent (c ∷ cs) (i ∷ is) o ≡ true
          → (raw : Bytes) × (check_availability fulfillable task_id available ≡ some (raw, true))
            × ((after_availability fulfillable task_id order o call (read_cart cart s)).0
                ≡ outcome order raw (enqueue fulfillable task_id call))
      split none a e = cc
      split (some (raw, false)) a e = cc
      split (some (raw, true)) a e = (
        raw,
        a,
        after_enqueue-outcome order raw (enqueue fulfillable task_id call) (read_cart cart s),
      )

  take_items_kept :
      (order customer : Bytes) (items : List Item) (cart : CartRead) (available call : PostCall)
      (s : Stats)
      → is_sent customer items (check_availability fulfillable task_id available) ≡ false
      → IsRefusal (take_items fulfillable task_id order customer items cart available call s).0
  unfolding is_sent
  take_items_kept order [] items cart available call s h e = omega arith
  take_items_kept order (c ∷ cs) [] cart available call s h e = omega arith
  take_items_kept order (c ∷ cs) (i ∷ is) cart available call s h e =
      split (check_availability fulfillable task_id available) h e
    where
      split :
          (a : Option (Bytes × Bool))
          → is_sent (c ∷ cs) (i ∷ is) a ≡ false
          → IsRefusal (after_availability fulfillable task_id order a call (read_cart cart s)).0
      split none k e = omega arith
      split (some (r, false)) k e = omega arith
      split (some (r, true)) k e = cc

module _ (R : Redis) (J : Json) where
  -- handleOrders that comes to its call of enqueue.
  pub serve_sent :
      (q : Request R J) (r : OrderRequest) (call : PostCall) (s : Stats)
      → sends R J q.method q.request q.available ≡ some r
      → (raw : Bytes) × (check_availability J.fulfillable J.task_id q.available ≡ some (raw, true))
        × ((serve R J q call s).0 ≡ outcome q.order raw (enqueue J.fulfillable J.task_id call))
  unfolding sends handle_orders
  serve_sent q r call s h = by_method q.method h
    where
      by_request :
          (o : Option OrderRequest)
          → sends R J post o q.available ≡ some r
          → (raw : Bytes) × (check_availability J.fulfillable J.task_id q.available
              ≡ some (raw, true))
            × ((handle_orders J.fulfillable J.task_id post q.order o q.cart q.available call s).0
                ≡ outcome q.order raw (enqueue J.fulfillable J.task_id call))
      by_request none e = cc
      by_request (some o) e =
          elim (Bool-cases (
            is_sent o.customer_id o.items
              (check_availability J.fulfillable J.task_id q.available))) [
                | inl fits ↦
                    let (raw, avail, shown) =
                      take_items_sent J.fulfillable J.task_id q.order o.customer_id o.items q.cart
                        q.available call (order_received s) fits in
                    (
                      raw,
                      avail,
                      finally_done-response J.fulfillable J.task_id (
                            take_items J.fulfillable J.task_id q.order o.customer_id o.items q.cart
                              q.available call (order_received s))
                          ∙ shown,
                    )
                | inr kept ↦ absurd (cc (rw kept at e))
              ]

      by_method :
          (m : Method)
          → sends R J m q.request q.available ≡ some r
          → (raw : Bytes) × (check_availability J.fulfillable J.task_id q.available
              ≡ some (raw, true))
            × ((handle_orders J.fulfillable J.task_id m q.order q.request q.cart q.available call
                  s).0
                ≡ outcome q.order raw (enqueue J.fulfillable J.task_id call))
      by_method post e = by_request q.request e
      by_method other e = cc

  -- handleOrders that ends before it.
  pub serve_kept :
      (q : Request R J) (call : PostCall) (s : Stats)
      → sends R J q.method q.request q.available ≡ none
      → IsRefusal (serve R J q call s).0
  unfolding sends handle_orders
  serve_kept q call s h = by_method q.method h
    where
      by_request :
          (m : Option OrderRequest)
          → sends R J post m q.available ≡ none
          → IsRefusal
              (handle_orders J.fulfillable J.task_id post q.order m q.cart q.available call s).0
      by_request none e k = omega arith
      by_request (some m) e k =
          elim (Bool-cases (
            is_sent m.customer_id m.items
              (check_availability J.fulfillable J.task_id q.available))) [
                | inl fits ↦ cc (rw fits at e)
                | inr kept ↦
                    take_items_kept J.fulfillable J.task_id q.order m.customer_id m.items q.cart
                      q.available call (order_received s) kept
                      (ap status_of (
                          sym (
                            finally_done-response J.fulfillable J.task_id (
                              take_items J.fulfillable J.task_id q.order m.customer_id m.items
                                q.cart q.available call (order_received s))))
                        ∙ k)
              ]

      by_method :
          (m : Method)
          → sends R J m q.request q.available ≡ none
          → IsRefusal
              (handle_orders J.fulfillable J.task_id m q.order q.request q.cart q.available call
                s).0
      by_method post e k = by_request q.request e k
      by_method other e k = omega arith
