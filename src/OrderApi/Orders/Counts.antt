-- ===== src/OrderApi/Orders/Counts.antt =====
-- How an order is counted.
use container_patterns.Common.{
  ℕ, suc, ◌+◌, ◌^◌, ◌<◌, ◌≡◌, ◌≢◌, refl, ◌∙◌, ◌⊎◌, inl, inr, Bool, true, false, Option, none, some,
  List, [], ◌∷◌, arith, Bytes,
}
use container_patterns.OrderApi.Stats.{
  Stats, next, order_received, order_done, order_placed, order_rejected, cache_hit, cache_miss,
}
use container_patterns.OrderApi.Orders.{
  Item, OrderRequest, post, PostCall, CartRead, found, absent, failed, Response, status_of,
  read_cart, check_availability, enqueue, after_enqueue, after_availability, take_items, take_order,
  finally_done, handle_orders,
}

-- The counters of orders are below 2^63 - 1, so that none wraps around.
pub record HasRoom (s : Stats) : Type 0 where
  pub received : s.received + 1 < 2 ^ 63
  pub placed : s.placed + 1 < 2 ^ 63
  pub rejected : s.rejected + 1 < 2 ^ 63
  pub in_flight : s.in_flight + 1 < 2 ^ 63

-- An order was decided: it is placed, exactly if the answer is 201, or rejected.
pub record Decided (s : Stats) (o : Response × Stats) : Type 0 where
  pub counted :
      ((status_of o.0 ≡ 201) × (o.1.placed ≡ s.placed + 1) × (o.1.rejected ≡ s.rejected))
      ⊎ ((status_of o.0 ≢ 201) × (o.1.placed ≡ s.placed) × (o.1.rejected ≡ s.rejected + 1))
  pub received : o.1.received ≡ s.received
  pub in_flight : o.1.in_flight ≡ s.in_flight

next_below : (n : ℕ) → n + 1 < 2 ^ 63 → next n ≡ n + 1
unfolding next
next_below n h = omega arith

rejected-Decided :
    (r : Response) (s : Stats) → status_of r ≢ 201 → HasRoom s → Decided s (r, order_rejected s)
unfolding order_rejected
rejected-Decided r s h room = record {
  counted = inr (h, refl, next_below s.rejected room.rejected);
  received = refl;
  in_flight = refl;
}

read_cart-HasRoom : (c : CartRead) (s : Stats) → HasRoom s → HasRoom (read_cart c s)
unfolding read_cart cache_hit cache_miss
read_cart-HasRoom found s h = record {
  received = h.received;
  placed = h.placed;
  rejected = h.rejected;
  in_flight = h.in_flight;
}
read_cart-HasRoom absent s h = record {
  received = h.received;
  placed = h.placed;
  rejected = h.rejected;
  in_flight = h.in_flight;
}
read_cart-HasRoom failed s h = record {
  received = h.received;
  placed = h.placed;
  rejected = h.rejected;
  in_flight = h.in_flight;
}

read_cart-Decided :
    (c : CartRead) (s : Stats) (o : Response × Stats) → Decided (read_cart c s) o → Decided s o
unfolding read_cart cache_hit cache_miss
read_cart-Decided found s o d = record {
  counted = d.counted;
  received = d.received;
  in_flight = d.in_flight;
}
read_cart-Decided absent s o d = record {
  counted = d.counted;
  received = d.received;
  in_flight = d.in_flight;
}
read_cart-Decided failed s o d = record {
  counted = d.counted;
  received = d.received;
  in_flight = d.in_flight;
}

module _ (fulfillable : Bytes → Option Bool) (task_id : Bytes → Option Bytes) where
  after_enqueue-Decided :
      (order raw : Bytes) (t : Option Bytes) (s : Stats)
      → HasRoom s
      → Decided s (after_enqueue fulfillable task_id order raw t s)
  unfolding order_placed
  after_enqueue-Decided order raw none s h = rejected-Decided _ s (λ e. omega arith) h
  after_enqueue-Decided order raw (some task) s h = record {
    counted = inl (refl, next_below s.placed h.placed, refl);
    received = refl;
    in_flight = refl;
  }

  after_availability-Decided :
      (order : Bytes) (a : Option (Bytes × Bool)) (queued : PostCall) (s : Stats)
      → HasRoom s
      → Decided s (after_availability fulfillable task_id order a queued s)
  after_availability-Decided order none queued s h = rejected-Decided _ s (λ e. omega arith) h
  after_availability-Decided order (some (raw, false)) queued s h =
      rejected-Decided _ s (λ e. omega arith) h
  after_availability-Decided order (some (raw, true)) queued s h =
      after_enqueue-Decided order raw (enqueue fulfillable task_id queued) s h

  take_items-Decided :
      (order customer : Bytes) (items : List Item) (c : CartRead) (available queued : PostCall)
      (s : Stats)
      → HasRoom s
      → Decided s (take_items fulfillable task_id order customer items c available queued s)
  take_items-Decided order [] items c available queued s h =
      rejected-Decided _ s (λ e. omega arith) h
  take_items-Decided order (x ∷ xs) [] c available queued s h =
      rejected-Decided _ s (λ e. omega arith) h
  take_items-Decided order (x ∷ xs) (i ∷ is) c available queued s h = read_cart-Decided c s _ (
      after_availability-Decided order (check_availability fulfillable task_id available) queued
        (read_cart c s) (read_cart-HasRoom c s h))

  take_order-Decided :
      (order : Bytes) (r : Option OrderRequest) (c : CartRead) (available queued : PostCall)
      (s : Stats)
      → HasRoom s
      → Decided s (take_order fulfillable task_id order r c available queued s)
  take_order-Decided order none c available queued s h = rejected-Decided _ s (λ e. omega arith) h
  take_order-Decided order (some r) c available queued s h =
      take_items-Decided order r.customer_id r.items c available queued s h

-- The state in which the order is taken has room, too.
order_received-HasRoom :
    (s : Stats)
    → s.received + 2 < 2 ^ 63
    → s.placed + 1 < 2 ^ 63
    → s.rejected + 1 < 2 ^ 63
    → s.in_flight + 2 < 2 ^ 63
    → HasRoom (order_received s)
unfolding order_received
order_received-HasRoom s h1 h2 h3 h4 = record {
  received = omega (arith, next_below s.received (omega arith));
  placed = h2;
  rejected = h3;
  in_flight = omega (arith, next_below s.in_flight (omega arith));
}

order_done_lem :
    (s : Stats) (n : ℕ) → s.in_flight ≡ suc n → suc n < 2 ^ 63 → (order_done s).in_flight ≡ n
unfolding order_done
order_done_lem s n e h = ground arith

-- A POST counts as one order received, and as one placed or one rejected, never both: it is placed
-- exactly if the answer is 201. When it is over, no more orders are in flight than before. This holds
-- however the calls end, if no counter is about to reach 2^63.
pub handle_orders_counts :
    (fulfillable : Bytes → Option Bool) (task_id : Bytes → Option Bytes) (order : Bytes)
    (r : Option OrderRequest) (c : CartRead) (available queued : PostCall) (s : Stats)
    → s.received + 2 < 2 ^ 63
    → s.placed + 1 < 2 ^ 63
    → s.rejected + 1 < 2 ^ 63
    → s.in_flight + 2 < 2 ^ 63
    → let (reply, s') = handle_orders fulfillable task_id post order r c available queued s in
      (s'.received ≡ s.received + 1)
      × (s'.in_flight ≡ s.in_flight)
      × (((status_of reply ≡ 201) × (s'.placed ≡ s.placed + 1) × (s'.rejected ≡ s.rejected))
          ⊎ ((status_of reply ≢ 201) × (s'.placed ≡ s.placed) × (s'.rejected ≡ s.rejected + 1)))
unfolding handle_orders order_received order_done
handle_orders_counts fulfillable task_id order r c available queued s h1 h2 h3 h4 =
    done (take_order fulfillable task_id order r c available queued (order_received s)) d
  where
    d :
        Decided
          (order_received s)
          (take_order fulfillable task_id order r c available queued (order_received s))
    d =
        take_order-Decided fulfillable task_id order r c available queued (order_received s)
          (order_received-HasRoom s h1 h2 h3 h4)

    done :
        (o : Response × Stats)
        → Decided (order_received s) o
        → let (reply, s') = finally_done fulfillable task_id o in
          (s'.received ≡ s.received + 1)
          × (s'.in_flight ≡ s.in_flight)
          × (((status_of reply ≡ 201) × (s'.placed ≡ s.placed + 1) × (s'.rejected ≡ s.rejected))
              ⊎ ((status_of reply ≢ 201) × (s'.placed ≡ s.placed) × (s'.rejected ≡ s.rejected + 1)))
    done (reply, t) d = (
      d.received ∙ next_below s.received (omega arith),
      order_done_lem t s.in_flight
          (d.in_flight ∙ next_below s.in_flight (omega arith) ∙ omega arith) (omega arith),
      d.counted,
    )
