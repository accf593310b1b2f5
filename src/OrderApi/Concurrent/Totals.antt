-- ===== src/OrderApi/Concurrent/Totals.antt =====
-- The counters of orders, while any number of orders is handled.
use container_patterns.Common.{
  ℕ, ◌+◌, ◌-◌, ◌%◌, ◌^◌, ◌<◌, ◌≤◌, ◌≡◌, refl, ap, arith, List, [], ◌∷◌, ◌++◌, length, lt→ltb,
  if◌then◌else◌,
}
use container_patterns.OrderApi.Stats.{
  Stats, new_stats, next, is_positive, order_received, order_done, order_placed, order_rejected,
  cache_hit, cache_miss, record_http,
}
use container_patterns.OrderApi.Orders.{CartRead, found, absent, failed, read_cart}
use container_patterns.OrderApi.Concurrent.{
  Stage, received, asking, decided, answered, Api, Step, arrives, passes_by, is_invalid, reads_cart,
  rejects, places, is_done, is_recorded, Reach, here, later,
}

-- Between orderReceived and orderDone.
abbrev pub active : Stage → ℕ
active received = 1
active asking = 1
active (decided status) = 1
active (answered status) = 0

-- Neither placed nor rejected yet.
abbrev pub undecided : Stage → ℕ
undecided received = 1
undecided asking = 1
undecided (decided status) = 0
undecided (answered status) = 0

unfoldable pub total : (Stage → ℕ) → List Stage → ℕ
total f [] = 0
total f (s ∷ ss) = f s + total f ss

total-append : (f : Stage → ℕ) (xs ys : List Stage) → total f (xs ++ ys) ≡ total f xs + total f ys
unfolding total
total-append f [] ys = omega arith
total-append f (x ∷ xs) ys = omega (arith, total-append f xs ys)

total-middle :
    (f : Stage → ℕ) (before : List Stage) (s : Stage) (after : List Stage)
    → total f (before ++ s ∷ after) ≡ total f before + (f s + total f after)
unfolding total
total-middle f before s after = total-append f before (s ∷ after)

active-length : (ss : List Stage) → total active ss ≤ length ss
unfolding total
active-length [] = omega arith
active-length (received ∷ ss) = omega (arith, active-length ss)
active-length (asking ∷ ss) = omega (arith, active-length ss)
active-length (decided status ∷ ss) = omega (arith, active-length ss)
active-length (answered status ∷ ss) = omega (arith, active-length ss)

-- The gauge and the three counters agree with the requests.
pub record Tallied (a : Api) : Type 0 where
  pub flights : a.stats.in_flight ≡ total active a.requests
  pub few : total active a.requests < 2 ^ 63
  pub decisions :
      a.stats.received ≡ (a.stats.placed + a.stats.rejected + total undecided a.requests) % 2 ^ 64

-- A request that moves on changes a total by what its stage counts.
same_total :
    (f : Stage → ℕ) (before after : List Stage) {rs : List Stage} (s t : Stage)
    → rs ≡ before ++ s ∷ after
    → total f (before ++ t ∷ after) + f s ≡ total f rs + f t
same_total f before after s t e =
    omega (arith, ap (total f) e, total-middle f before s after, total-middle f before t after)

total-gone :
    (f : Stage → ℕ) (before after : List Stage) {rs : List Stage} (s : Stage)
    → rs ≡ before ++ s ∷ after
    → total f (before ++ after) + f s ≡ total f rs
total-gone f before after s e =
    omega (arith, ap (total f) e, total-middle f before s after, total-append f before after)

done_gauge : (n : ℕ) → 0 < n → n < 2 ^ 63 → (if is_positive n then n - 1 else n) ≡ n - 1
done_gauge n h k = rw (lt→ltb 0 n h, lt→ltb n (2 ^ 63) k) refl

pub read_cart_orders :
    (cart : CartRead) (s : Stats)
    → ((read_cart cart s).in_flight ≡ s.in_flight)
      × ((read_cart cart s).received ≡ s.received)
      × ((read_cart cart s).placed ≡ s.placed)
      × ((read_cart cart s).rejected ≡ s.rejected)
unfolding read_cart cache_hit cache_miss
read_cart_orders found s = (refl, refl, refl, refl)
read_cart_orders absent s = (refl, refl, refl, refl)
read_cart_orders failed s = (refl, refl, refl, refl)

Step-Tallied : {a b : Api} → Step a b → Tallied a → Tallied b
unfolding order_received order_rejected order_placed order_done record_http next total
Step-Tallied {a = a} (arrives h) t =
    let m = active-length a.requests in
    record {
      flights = omega (arith, t.flights, h, m);
      few = omega (arith, h, m);
      decisions = omega (arith, t.decisions);
    }
Step-Tallied (passes_by status h) t = record {
  flights = omega (arith, t.flights);
  few = omega (arith, t.few);
  decisions = omega (arith, t.decisions);
}
Step-Tallied (is_invalid before after e) t =
    let m = same_total active before after received (decided 400) e in
    let n = same_total undecided before after received (decided 400) e in
    record {
      flights = omega (arith, t.flights, m);
      few = omega (arith, t.few, m);
      decisions = omega (arith, t.decisions, n);
    }
Step-Tallied {a = a} (reads_cart cart before after e) t =
    let m = same_total active before after received asking e in
    let n = same_total undecided before after received asking e in
    let (f, r, p, j) = read_cart_orders cart a.stats in
    record {
      flights = omega (arith, t.flights, m, f);
      few = omega (arith, t.few, m);
      decisions = omega (arith, t.decisions, n, r, p, j);
    }
Step-Tallied (rejects status before after e) t =
    let m = same_total active before after asking (decided status) e in
    let n = same_total undecided before after asking (decided status) e in
    record {
      flights = omega (arith, t.flights, m);
      few = omega (arith, t.few, m);
      decisions = omega (arith, t.decisions, n);
    }
Step-Tallied (places before after e) t =
    let m = same_total active before after asking (decided 201) e in
    let n = same_total undecided before after asking (decided 201) e in
    record {
      flights = omega (arith, t.flights, m);
      few = omega (arith, t.few, m);
      decisions = omega (arith, t.decisions, n);
    }
Step-Tallied {a = a} (is_done status before after e) t =
    let m = same_total active before after (decided status) (answered status) e in
    let n = same_total undecided before after (decided status) (answered status) e in
    let d =
      done_gauge a.stats.in_flight (omega (arith, m, t.flights))
        (omega (arith, t.few, t.flights)) in
    record {
      flights = omega (arith, t.flights, m, d);
      few = omega (arith, t.few, m);
      decisions = omega (arith, t.decisions, n);
    }
Step-Tallied {a = a} (is_recorded status us before after e) t =
    let m = total-gone active before after (answered status) e in
    let n = total-gone undecided before after (answered status) e in
    record {
      flights = omega (arith, t.flights, m);
      few = omega (arith, t.few, m);
      decisions = omega (arith, t.decisions, n);
    }

pub Reach-Tallied : {a b : Api} → Reach a b → Tallied a → Tallied b
Reach-Tallied here t = t
Reach-Tallied (later r s) t = Step-Tallied s (Reach-Tallied r t)

-- The API as it starts.
abbrev pub started : Api
started = record { stats = new_stats; requests = [] }

started-Tallied : Tallied started
unfolding new_stats total
started-Tallied = record { flights = refl; few = omega arith; decisions = refl }

-- However the requests interleave, fewer than 2^63 of them at once: the gauge ordersInFlight is
-- the number of the orders that are between orderReceived and orderDone, and ordersReceived is, in
-- 64 bits, the sum of ordersPlaced, ordersRejected and the number of the orders that are neither
-- yet. Once no request is left, the gauge is 0 and each received order has been placed or
-- rejected.
pub counters_tally :
    {a : Api}
    → Reach started a
    → (a.stats.in_flight ≡ total active a.requests)
      × (a.stats.received
          ≡ (a.stats.placed + a.stats.rejected + total undecided a.requests) % 2 ^ 64)
      × (a.requests ≡ []
          → (a.stats.in_flight ≡ 0)
            × (a.stats.received ≡ (a.stats.placed + a.stats.rejected) % 2 ^ 64))
unfolding total
counters_tally r =
    let t = Reach-Tallied r started-Tallied in
    (
      t.flights,
      t.decisions,
      λ none_left.
          let m = ap (total active) none_left in
          let n = ap (total undecided) none_left in
          (omega (arith, t.flights, m), omega (arith, t.decisions, n)),
    )
