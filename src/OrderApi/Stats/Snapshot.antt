-- ===== src/OrderApi/Stats/Snapshot.antt =====
-- snapshot of services/order-api/stats.go: what /stats reports. The maps are association lists, and the
-- order in which Go ranges over them is from the end. The uptime and the latencies' sum are left out.
use container_patterns.Common.{
  ℕ, ◌^◌, ◌<◌, ◌≡◌, refl, sym, ap, ◌∙◌, inl, inr, true, false, Option, none, some, List, [], ◌∷◌,
  Bytes, bytes_eq, bytes_eq_iff, All, Bool-cases, ◌==◌, ==_iff, if◌then◌else◌,
}
use container_patterns.Decimal.{ℤ, pos, negsuc, atoi, format_int}
use container_patterns.Decimal.RoundTrip.{atoi-format_int}
use container_patterns.OrderApi.Stats.{Stats}

pub record OrdersSnapshot : Type 0 where
  pub received_total : ℕ
  pub placed_total : ℕ
  pub rejected_total : ℕ
  pub in_flight : ℕ

pub record StatsSnapshot : Type 0 where
  pub orders : OrdersSnapshot
  pub requests_total : List (Bytes × ℕ)
  pub count : ℕ
  pub buckets : List (Bytes × ℕ)
  pub hits_total : ℕ
  pub misses_total : ℕ

-- `m[key] = n`
abbrev pub put_at : Bytes → ℕ → List (Bytes × ℕ) → List (Bytes × ℕ)
put_at key n [] = (key, n) ∷ []
put_at key n ((k, v) ∷ m) =
    let rest = put_at key n m in if bytes_eq k key then (k, n) ∷ m else (k, v) ∷ rest

-- The loop that writes each number in decimal.
unfoldable pub by_text : List (ℕ × ℕ) → List (Bytes × ℕ)
by_text [] = []
by_text ((k, n) ∷ m) = put_at (format_int k) n (by_text m)

unfoldable pub snapshot : Stats → StatsSnapshot
unfolding by_text
snapshot s = record {
  orders = record {
    received_total = s.received;
    placed_total = s.placed;
    rejected_total = s.rejected;
    in_flight = s.in_flight;
  };
  requests_total = by_text s.http_requests;
  count = s.lat_count;
  buckets = by_text s.lat_buckets;
  hits_total = s.cache_hits;
  misses_total = s.cache_misses;
}

-- What a key has in a map, if it is there.
unfoldable pub entry_at : ℕ → List (ℕ × ℕ) → Option ℕ
entry_at key [] = none
entry_at key ((k, n) ∷ m) = if k == key then some n else entry_at key m

unfoldable pub entry_at_text : Bytes → List (Bytes × ℕ) → Option ℕ
entry_at_text key [] = none
entry_at_text key ((k, n) ∷ m) = if bytes_eq k key then some n else entry_at_text key m

true≢false : true ≡ false → ⊥
true≢false e = cc

apart :
    (k other key : Bytes)
    → bytes_eq k other ≡ false
    → bytes_eq other key ≡ true
    → bytes_eq k key ≡ false
apart k other key d t = elim (Bool-cases (bytes_eq k key)) [
  | inr f ↦ f
  | inl e ↦
      let same = (bytes_eq_iff k key).0 e ∙ sym ((bytes_eq_iff other key).0 t) in
      absurd (true≢false (sym ((bytes_eq_iff k other).1 same) ∙ d))
]

entry_at_text-put_at :
    (key other : Bytes) (n : ℕ) (m : List (Bytes × ℕ))
    → entry_at_text key (put_at other n m)
      ≡ (if bytes_eq other key then some n else entry_at_text key m)
unfolding entry_at_text
entry_at_text-put_at key other n [] = refl
entry_at_text-put_at key other n ((k, v) ∷ m) =
    let rest = entry_at_text-put_at key other n m in
    elim (Bool-cases (bytes_eq k other)) [
      | inl e ↦
          let same = ap (λ x. bytes_eq x key) ((bytes_eq_iff k other).0 e) in
          elim (Bool-cases (bytes_eq other key)) [
            | inl t ↦ rw (e, entry_at_text, same, t) refl
            | inr f ↦ rw (e, entry_at_text, same, f) refl
          ]
      | inr d ↦ elim (Bool-cases (bytes_eq other key)) [
        | inl t ↦ rw (d, entry_at_text, apart k other key d t, rest, t) refl
        | inr f ↦ rw (d, entry_at_text, rest, f) refl
      ]
    ]

magnitude : Option ℤ → ℕ
magnitude none = 0
magnitude (some (pos n)) = n
magnitude (some (negsuc n)) = 0

-- Two numbers with one text are the same.
format_int_injective : (a b : ℕ) → a < 2 ^ 63 → b < 2 ^ 63 → format_int a ≡ format_int b → a ≡ b
unfolding magnitude
format_int_injective a b h k e =
    ap magnitude (sym (atoi-format_int a h) ∙ ap atoi e ∙ atoi-format_int b k)

same_test : (a b : ℕ) → a < 2 ^ 63 → b < 2 ^ 63 → bytes_eq (format_int a) (format_int b) ≡ (a == b)
same_test a b h k = elim (Bool-cases (bytes_eq (format_int a) (format_int b))) [
  | inl t ↦
      t
      ∙ sym (
          (==_iff a b).1
            (format_int_injective a b h k ((bytes_eq_iff (format_int a) (format_int b)).0 t)))
  | inr f ↦ elim (Bool-cases (a == b)) [
    | inr g ↦ f ∙ sym g
    | inl e ↦
        let same = ap format_int ((==_iff a b).0 e) in
        absurd (true≢false (sym ((bytes_eq_iff (format_int a) (format_int b)).1 same) ∙ f))
  ]
]

entry_at-by_text :
    (key : ℕ) (m : List (ℕ × ℕ))
    → key < 2 ^ 63
    → All (λ e. e.0 < 2 ^ 63) m
    → entry_at_text (format_int key) (by_text m) ≡ entry_at key m
unfolding by_text entry_at entry_at_text
entry_at-by_text key [] h all = refl
entry_at-by_text key ((k, n) ∷ m) h (small, all) =
    entry_at_text-put_at (format_int key) (format_int k) n (by_text m)
    ∙ rw (same_test k key small h, entry_at-by_text key m h all) refl

-- If status codes and bucket bounds are below 2^63, /stats reports the counters as they stand: each
-- code's text has the count of that code in requestsTotal, and is missing if the code is, the same holds
-- for the buckets, and the six counters of orders and of the cache and the latencies' count are
-- the server's.
pub snapshot_reports :
    (s : Stats) (key : ℕ)
    → key < 2 ^ 63
    → All (λ e. e.0 < 2 ^ 63) s.http_requests
    → All (λ e. e.0 < 2 ^ 63) s.lat_buckets
    → let t = snapshot s in
      (entry_at_text (format_int key) t.requests_total ≡ entry_at key s.http_requests)
      × (entry_at_text (format_int key) t.buckets ≡ entry_at key s.lat_buckets)
      × (t.orders.received_total ≡ s.received)
      × (t.orders.placed_total ≡ s.placed)
      × (t.orders.rejected_total ≡ s.rejected)
      × (t.orders.in_flight ≡ s.in_flight)
      × (t.count ≡ s.lat_count)
      × (t.hits_total ≡ s.cache_hits)
      × (t.misses_total ≡ s.cache_misses)
unfolding snapshot
snapshot_reports s key h codes_small bounds_small = (
  entry_at-by_text key s.http_requests h codes_small,
  entry_at-by_text key s.lat_buckets h bounds_small,
  refl,
  refl,
  refl,
  refl,
  refl,
  refl,
  refl,
)
