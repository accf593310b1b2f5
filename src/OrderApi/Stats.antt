-- ===== src/OrderApi/Stats.antt =====
-- services/order-api/stats.go: the counters. Each operation holds the mutex, so that it is one step. A
-- counter is an int64, kept here as its two's complement; a latency is its whole number of
-- microseconds, of which the source takes the float64 of a thousandth. That division is exact enough
-- to compare with a whole number of milliseconds. The latencies' sum, a float64 that rounds, is left
-- out.
pub mod Histogram
pub mod Snapshot
use container_patterns.Common.{
  ℕ, suc, ◌+◌, ◌-◌, ◌*◌, ◌%◌, ◌^◌, Bool, ◌&&◌, List, [], ◌∷◌, map, ltb, leb, ◌==◌, if◌then◌else◌,
}

pub record Stats : Type 0 where
  pub received : ℕ
  pub placed : ℕ
  pub rejected : ℕ
  pub in_flight : ℕ
  pub http_requests : List (ℕ × ℕ)
  pub lat_count : ℕ
  pub lat_buckets : List (ℕ × ℕ)
  pub cache_hits : ℕ
  pub cache_misses : ℕ

-- The upper bounds in milliseconds.
abbrev pub latency_buckets : List ℕ
latency_buckets = 5 ∷ 10 ∷ 25 ∷ 50 ∷ 100 ∷ 250 ∷ []

unfoldable pub new_stats : Stats
new_stats = record {
  received = 0;
  placed = 0;
  rejected = 0;
  in_flight = 0;
  http_requests = [];
  lat_count = 0;
  lat_buckets = map (λ b. (b, 0)) latency_buckets;
  cache_hits = 0;
  cache_misses = 0;
}

-- `n++`
unfoldable pub next : ℕ → ℕ
next n = (n + 1) % 2 ^ 64

-- Whether an int64 is above 0.
abbrev pub is_positive : ℕ → Bool
is_positive n = ltb 0 n && ltb n (2 ^ 63)

unfoldable pub order_received : Stats → Stats
unfolding next
order_received s = record s { received = next s.received; in_flight = next s.in_flight }

unfoldable pub order_done : Stats → Stats
order_done s = record s {
  in_flight = if is_positive s.in_flight then s.in_flight - 1 else s.in_flight;
}

unfoldable pub order_placed : Stats → Stats
unfolding next
order_placed s = record s { placed = next s.placed }

unfoldable pub order_rejected : Stats → Stats
unfolding next
order_rejected s = record s { rejected = next s.rejected }

unfoldable pub cache_hit : Stats → Stats
unfolding next
cache_hit s = record s { cache_hits = next s.cache_hits }

unfoldable pub cache_miss : Stats → Stats
unfolding next
cache_miss s = record s { cache_misses = next s.cache_misses }

-- `m[key]++` on a map that is an association list; a missing key counts from 0.
unfoldable pub increment_at : ℕ → List (ℕ × ℕ) → List (ℕ × ℕ)
unfolding next
increment_at key [] = (key, 1) ∷ []
increment_at key ((k, n) ∷ m) =
    let rest = increment_at key m in if k == key then (k, next n) ∷ m else (k, n) ∷ rest

-- One bound's bucket; `us` is the latency in microseconds.
unfoldable pub observe : ℕ → ℕ × ℕ → ℕ × ℕ
unfolding next
observe us (b, n) = (b, if leb us (1000 * b) then next n else n)

unfoldable pub record_http : ℕ → ℕ → Stats → Stats
unfolding increment_at observe next
record_http status us s = record s {
  http_requests = increment_at status s.http_requests;
  lat_count = next s.lat_count;
  lat_buckets = map (observe us) s.lat_buckets;
}
