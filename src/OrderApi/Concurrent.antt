-- ===== src/OrderApi/Concurrent.antt =====
-- The requests that services/order-api handles at the same time, on one set of counters. Each operation
-- of stats.go is a step of its own, in the order in which handleOrders and withAccessLog call them; the
-- steps of all requests interleave in any order.
pub mod Totals
pub mod Single
use container_patterns.Common.{ℕ, suc, ◌+◌, ◌^◌, ◌<◌, ◌≡◌, List, [], ◌∷◌, ◌++◌, length}
use container_patterns.OrderApi.Stats.{
  Stats, order_received, order_done, order_placed, order_rejected, record_http,
}
use container_patterns.OrderApi.Orders.{CartRead, read_cart}

-- Where a request stands: behind orderReceived, behind readCart, behind orderPlaced or orderRejected,
-- behind orderDone. A status that is set is kept for recordHTTP.
pub data Stage : Type 0 where
  received : Stage
  asking : Stage
  decided : ℕ → Stage
  answered : ℕ → Stage

pub record Api : Type 0 where
  pub stats : Stats
  pub requests : List Stage

-- A request that is not an order, or not a POST, is only counted by recordHTTP. There are fewer than
-- 2^63 requests at once.
pub data Step (a : Api) : Api → Type 0 where
  arrives :
      suc (length a.requests) < 2 ^ 63
      → Step a (record { stats = order_received a.stats; requests = received ∷ a.requests })
  passes_by :
      (status : ℕ)
      → suc (length a.requests) < 2 ^ 63
      → Step a (record a { requests = answered status ∷ a.requests })
  is_invalid :
      (before after : List Stage)
      → a.requests ≡ before ++ received ∷ after
      → Step a (record { stats = order_rejected a.stats; requests = before ++ decided 400 ∷ after })
  reads_cart :
      (cart : CartRead) (before after : List Stage)
      → a.requests ≡ before ++ received ∷ after
      → Step a (record { stats = read_cart cart a.stats; requests = before ++ asking ∷ after })
  rejects :
      (status : ℕ) (before after : List Stage)
      → a.requests ≡ before ++ asking ∷ after
      → Step a
          (record { stats = order_rejected a.stats; requests = before ++ decided status ∷ after })
  places :
      (before after : List Stage)
      → a.requests ≡ before ++ asking ∷ after
      → Step a (record { stats = order_placed a.stats; requests = before ++ decided 201 ∷ after })
  is_done :
      (status : ℕ) (before after : List Stage)
      → a.requests ≡ before ++ decided status ∷ after
      → Step a (record { stats = order_done a.stats; requests = before ++ answered status ∷ after })
  is_recorded :
      (status us : ℕ) (before after : List Stage)
      → a.requests ≡ before ++ answered status ∷ after
      → Step a (record { stats = record_http status us a.stats; requests = before ++ after })

pub data Reach (a : Api) : Api → Type 0 where
  here : Reach a a
  later : {b c : Api} → Reach a b → Step b c → Reach a c
