-- ===== src/OrderApi/Stats/Histogram.antt =====
-- The histogram is cumulative and the counter of each status is exact.
use container_patterns.Common.{
  ℕ, ◌+◌, ◌*◌, ◌%◌, ◌^◌, ◌<◌, ◌≡◌, refl, ap, ◌∙◌, inl, inr, List, [], ◌∷◌, map, arith, length, leb,
  ◌==◌, Bool-cases, if◌then◌else◌,
}
use container_patterns.OrderApi.Stats.{
  Stats, latency_buckets, new_stats, next, increment_at, observe, record_http,
}

-- Requests, each with its status and its latency in microseconds, recorded one after the other.
unfoldable pub record_all : List (ℕ × ℕ) → Stats → Stats
record_all [] s = s
record_all ((status, us) ∷ rs) s = record_all rs (record_http status us s)

-- How many took at most so many milliseconds, and how many had the status.
unfoldable pub within : ℕ → List (ℕ × ℕ) → ℕ
within b [] = 0
within b ((status, us) ∷ rs) = (if leb us (1000 * b) then 1 else 0) + within b rs

unfoldable pub with_status : ℕ → List (ℕ × ℕ) → ℕ
with_status c [] = 0
with_status c ((status, us) ∷ rs) = (if status == c then 1 else 0) + with_status c rs

-- The map's value, 0 if there is none.
unfoldable pub value_at : ℕ → List (ℕ × ℕ) → ℕ
value_at c [] = 0
value_at c ((k, n) ∷ m) = if k == c then n else value_at c m

abbrev raised : List (ℕ × ℕ) → ℕ × ℕ → ℕ × ℕ
raised rs (b, n) = (b, (n + within b rs) % 2 ^ 64)

raised-observe :
    (status us : ℕ) (rs : List (ℕ × ℕ)) (p : ℕ × ℕ)
    → raised rs (observe us p) ≡ raised ((status, us) ∷ rs) p
unfolding within observe next
raised-observe status us rs (b, n) = elim (Bool-cases (leb us (1000 * b))) [
  | inl fast ↦ rw fast (ap (λ k. (b, k)) (omega arith))
  | inr slow ↦ rw slow (ap (λ k. (b, k)) (omega arith))
]

map-raised :
    (status us : ℕ) (rs : List (ℕ × ℕ)) (m : List (ℕ × ℕ))
    → map (raised rs) (map (observe us) m) ≡ map (raised ((status, us) ∷ rs)) m
map-raised status us rs [] = refl
map-raised status us rs (p ∷ m) = rw (raised-observe status us rs p, map-raised status us rs m) refl

-- The bounds stand for themselves when no number has been counted twice over.
abbrev AllSmall : List (ℕ × ℕ) → Type 0
AllSmall [] = Unit
AllSmall ((b, n) ∷ m) = (n < 2 ^ 64) × AllSmall m

map-raised_none : (m : List (ℕ × ℕ)) → AllSmall m → m ≡ map (raised []) m
unfolding within
map-raised_none [] h = refl
map-raised_none ((b, n) ∷ m) (h, hs) =
    let here : n ≡ (n + 0) % 2 ^ 64 = omega arith in let later = map-raised_none m hs in cc

next_small : (n : ℕ) → next n < 2 ^ 64
unfolding next
next_small n = omega arith

map-observe-AllSmall : (us : ℕ) (m : List (ℕ × ℕ)) → AllSmall m → AllSmall (map (observe us) m)
unfolding observe
map-observe-AllSmall us [] h = h
map-observe-AllSmall us ((b, n) ∷ m) (h, hs) = elim (Bool-cases (leb us (1000 * b))) [
  | inl fast ↦ rw fast (next_small n, map-observe-AllSmall us m hs)
  | inr slow ↦ rw slow (h, map-observe-AllSmall us m hs)
]

buckets-record_all :
    (rs : List (ℕ × ℕ)) (s : Stats)
    → AllSmall s.lat_buckets
    → (record_all rs s).lat_buckets ≡ map (raised rs) s.lat_buckets
unfolding record_all record_http
buckets-record_all [] s h = map-raised_none s.lat_buckets h
buckets-record_all ((status, us) ∷ rs) s h =
    buckets-record_all rs (record_http status us s) (map-observe-AllSmall us s.lat_buckets h)
    ∙ map-raised status us rs s.lat_buckets

count-record_all :
    (rs : List (ℕ × ℕ)) (s : Stats)
    → s.lat_count < 2 ^ 64
    → (record_all rs s).lat_count ≡ (s.lat_count + length rs) % 2 ^ 64
unfolding record_all record_http next
count-record_all [] s h = omega arith
count-record_all ((status, us) ∷ rs) s h =
    count-record_all rs (record_http status us s) (omega arith) ∙ omega arith

value_at-increment_at :
    (key c : ℕ) (m : List (ℕ × ℕ)) (n : ℕ)
    → (value_at c (increment_at key m) + n) % 2 ^ 64
      ≡ (value_at c m + ((if key == c then 1 else 0) + n)) % 2 ^ 64
unfolding value_at increment_at next
value_at-increment_at key c [] n = ground arith
value_at-increment_at key c ((k, v) ∷ m) n = elim (Bool-cases (k == key)) [
  | inl same ↦ rw same (ground arith)
  | inr other ↦ rw other (ground (arith, value_at-increment_at key c m n))
]

requests-record_all :
    (rs : List (ℕ × ℕ)) (s : Stats) (c : ℕ)
    → value_at c (record_all rs s).http_requests % 2 ^ 64
      ≡ (value_at c s.http_requests + with_status c rs) % 2 ^ 64
unfolding record_all record_http with_status
requests-record_all [] s c = omega arith
requests-record_all ((status, us) ∷ rs) s c =
    requests-record_all rs (record_http status us s) c
    ∙ value_at-increment_at status c s.http_requests (with_status c rs)

from_zero :
    (rs : List (ℕ × ℕ)) (bs : List ℕ)
    → map (raised rs) (map (λ b. (b, 0)) bs) ≡ map (λ b. (b, within b rs % 2 ^ 64)) bs
from_zero rs [] = refl
from_zero rs (b ∷ bs) =
    let here : (0 + within b rs) % 2 ^ 64 ≡ within b rs % 2 ^ 64 = omega arith in
    let later = from_zero rs bs in cc

new_stats-AllSmall : AllSmall new_stats.lat_buckets
unfolding new_stats
new_stats-AllSmall =
    (omega arith, (omega arith, (omega arith, (omega arith, (omega arith, (omega arith, tt))))))

-- After any requests, the bucket of each bound holds how many took at most that long, so that the
-- buckets are cumulative, the count is that of all requests, and each status has its own; all are
-- taken modulo 2^64, as the counters wrap around.
pub record_http_counts :
    (rs : List (ℕ × ℕ))
    → let s = record_all rs new_stats in
      (s.lat_buckets ≡ map (λ b. (b, within b rs % 2 ^ 64)) latency_buckets)
      × (s.lat_count ≡ length rs % 2 ^ 64)
      × ((c : ℕ) → value_at c s.http_requests % 2 ^ 64 ≡ with_status c rs % 2 ^ 64)
unfolding new_stats value_at
record_http_counts rs = (
  buckets-record_all rs new_stats new_stats-AllSmall ∙ from_zero rs latency_buckets,
  count-record_all rs new_stats (omega arith) ∙ omega arith,
  λ c. requests-record_all rs new_stats c ∙ omega arith,
)
