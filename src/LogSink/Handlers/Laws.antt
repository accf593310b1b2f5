-- ===== src/LogSink/Handlers/Laws.antt =====
-- What a push stores and a query returns.
use container_patterns.Common.{
  ℕ, zero, suc, ◌+◌, ◌^◌, ◌<◌, ◌≤◌, ◌≡◌, refl, sym, ap, ◌∙◌, ◌↔◌, ◌⊎◌, inl, inr, true, Option, none,
  some, List, [], ◌∷◌, ◌++◌, arith, Bytes, take, length, take, reverse, select, last_n, append-nil,
  append_assoc, length-append, bytes_eq, bytes_eq_iff, take_all, Bool-cases, take-suc,
  reverse-append,
}
use container_patterns.LogSink.Ring.{Record, Ring, add, new_ring, add_all, snapshot}
use container_patterns.LogSink.Ring.Refine.{
  IsValid, add_all-IsValid, snapshot-add_all, new_ring-IsValid,
}
use container_patterns.LogSink.Handlers.{
  Method, post, other_method, LogStream, max_body_size, record_of_value, push_values, push_streams,
  method_not_allowed, bad_request, no_content, handle_push, has_prefix, contains, matches, store,
  found_at, scan_down, handle_query,
}

-- The records that the values of a push stand for, in order.
abbrev cons? : Option Record → List Record → List Record
cons? none recs = recs
cons? (some rec) recs = rec ∷ recs

abbrev pub records_of_values : List (Bytes × Bytes) → List (List Bytes) → List Record
records_of_values labels [] = []
records_of_values labels (v ∷ vs) = cons? (record_of_value labels v) (records_of_values labels vs)

abbrev pub records_of : List LogStream → List Record
records_of [] = []
records_of (st ∷ sts) = records_of_values st.stream st.values ++ records_of sts

-- What a ring and a count become when records are added.
abbrev stored_all : Ring × ℕ → List Record → Ring × ℕ
stored_all (r, n) recs = (add_all r recs, n + length recs)

store-cons? :
    (o : Option Record) (s : Ring × ℕ) (recs : List Record)
    → stored_all (store o s) recs ≡ stored_all s (cons? o recs)
unfolding add_all
store-cons? none s recs = refl
store-cons? (some rec) (r, n) recs = λ i. (add_all (add r rec) recs, counted i)
  where
    counted : n + 1 + length recs ≡ n + suc (length recs)
    counted = omega arith

push_values_lem :
    (labels : List (Bytes × Bytes)) (vs : List (List Bytes)) (s : Ring × ℕ)
    → push_values s labels vs ≡ stored_all s (records_of_values labels vs)
unfolding push_values add_all
push_values_lem labels [] s = λ i. (s.0, sum_zero i)
  where
    sum_zero : s.1 ≡ s.1 + 0
    sum_zero = omega arith
push_values_lem labels (v ∷ vs) s =
    push_values_lem labels vs (store (record_of_value labels v) s)
    ∙ store-cons? (record_of_value labels v) s (records_of_values labels vs)

add_all-append : (xs ys : List Record) (r : Ring) → add_all r (xs ++ ys) ≡ add_all (add_all r xs) ys
unfolding add_all
add_all-append [] ys r = refl
add_all-append (x ∷ xs) ys r = add_all-append xs ys (add r x)

push_streams_lem :
    (sts : List LogStream) (s : Ring × ℕ) → push_streams s sts ≡ stored_all s (records_of sts)
unfolding push_streams add_all
push_streams_lem [] s = λ i. (s.0, sum_zero i)
  where
    sum_zero : s.1 ≡ s.1 + 0
    sum_zero = omega arith
push_streams_lem (st ∷ sts) s =
    let recs = records_of_values st.stream st.values in
    push_streams_lem sts (push_values s st.stream st.values)
    ∙ rw (push_values_lem st.stream st.values s)
        (λ i. (sym (add_all-append recs (records_of sts) s.0) i, counted recs i))
  where
    counted :
        (recs : List Record)
        → s.1 + length recs + length (records_of sts) ≡ s.1 + length (recs ++ records_of sts)
    counted recs = omega (arith, length-append recs (records_of sts))

-- A POST whose first 8 MiB decode to streams is answered by 204 with the numbers of streams and of
-- non-empty values, and the ring then holds the last `cap` of what it held followed by one record
-- for each non-empty value, in order; the ring stays valid.
pub handle_push_stores :
    (decode : Bytes → Option (List LogStream)) (body : Bytes) {r : Ring} (sts : List LogStream)
    → IsValid r
    → decode (take max_body_size body) ≡ some sts
    → let (reply, r') = handle_push decode post body r in
      (reply ≡ no_content (length sts) (length (records_of sts)))
      × (snapshot r' ≡ last_n r.cap (snapshot r ++ records_of sts))
      × IsValid r'
unfolding handle_push
handle_push_stores decode body {r} sts v e =
    rw (e, handle_push, push_streams_lem sts (r, 0))
      (
        ap (no_content (length sts)) (omega arith),
        snapshot-add_all (records_of sts) v,
        add_all-IsValid (records_of sts) v,
      )

-- A request with another method than POST is answered by 405, and one whose first 8 MiB do not
-- decode by 400. Both leave the ring as it was.
pub handle_push_refuses :
    (decode : Bytes → Option (List LogStream)) (m : Method) (body : Bytes) (r : Ring)
    → (m ≡ other_method) ⊎ (decode (take max_body_size body) ≡ none)
    → let (reply, r') = handle_push decode m body r in
      (((m ≡ other_method) × (reply ≡ method_not_allowed)) ⊎ ((m ≡ post) × (reply ≡ bad_request)))
      × (r' ≡ r)
unfolding handle_push
handle_push_refuses decode other_method body r h = (inl (refl, refl), refl)
handle_push_refuses decode post body r (inl e) = cc
handle_push_refuses decode post body r (inr e) = rw (e, handle_push) (inr (refl, refl), refl)

-- `s` starts with `q`.
abbrev StartsWith : Bytes → Bytes → Type 0
StartsWith s q = (rest : Bytes) × (s ≡ q ++ rest)

StartsWith-of_has_prefix : (s q : Bytes) → has_prefix s q ≡ true → StartsWith s q
unfolding has_prefix
StartsWith-of_has_prefix s [] h = (s, refl)
StartsWith-of_has_prefix [] (q ∷ qs) h = cc
StartsWith-of_has_prefix (c ∷ cs) (q ∷ qs) h =
    let (rest, e) = StartsWith-of_has_prefix cs qs (ground arith) in (rest, ground (arith, e))

has_prefix-append : (q rest : Bytes) → has_prefix (q ++ rest) q ≡ true
unfolding has_prefix
has_prefix-append [] rest = refl
has_prefix-append (c ∷ q) rest = ground (arith, has_prefix-append q rest)

-- `q` stands somewhere in `s`.
abbrev pub Occurs : Bytes → Bytes → Type 0
Occurs s q = (before : Bytes) × (rest : Bytes) × (s ≡ before ++ (q ++ rest))

Occurs-of_prefix : (s q : Bytes) → has_prefix s q ≡ true → Occurs s q
Occurs-of_prefix s q h = let (rest, e) = StartsWith-of_has_prefix s q h in ([], rest, e)

contains_sound : (s q : Bytes) → contains s q ≡ true → Occurs s q
unfolding contains
contains_sound [] q h = Occurs-of_prefix [] q h
contains_sound (c ∷ cs) q h = elim (Bool-cases (has_prefix (c ∷ cs) q)) [
  | inl here ↦ Occurs-of_prefix (c ∷ cs) q here
  | inr not_here ↦
      let (before, rest, e) = contains_sound cs q (ground arith) in (c ∷ before, rest, ap (◌∷◌ c) e)
]

contains_complete : (before q rest : Bytes) → contains (before ++ (q ++ rest)) q ≡ true
unfolding contains
contains_complete [] [] [] = has_prefix-append [] []
contains_complete [] [] (c ∷ rest) = rw (has_prefix-append [] (c ∷ rest))
contains_complete [] (c ∷ q) rest = rw (has_prefix-append (c ∷ q) rest)
contains_complete (c ∷ before) q rest = ground (arith, contains_complete before q rest)

-- A query matches a record exactly when its line has the query as a substring.
pub matches_iff : (q : Bytes) (rec : Record) → (matches q rec ≡ true) ↔ Occurs rec.line q
matches_iff q rec = (sound, complete)
  where
    sound : matches q rec ≡ true → Occurs rec.line q
    sound h = elim (Bool-cases (bytes_eq q [])) [
      | inl empty ↦ ([], rec.line, ap (λ s. s ++ rec.line) (sym ((bytes_eq_iff q []).0 empty)))
      | inr other ↦ contains_sound rec.line q (rw other at h)
    ]

    complete : Occurs rec.line q → matches q rec ≡ true
    complete (before, rest, e) =
        let found = contains_complete before q rest in ground (arith, rw (← e) at found)

-- The loop of handleQuery, over the first `length xs` of the records.
scan_down_lem :
    (q : Bytes) (n : ℕ) (all found : List Record)
    → n ≤ length all
    → scan_down q all n found ≡ found ++ select (matches q) (reverse (take n all))
unfolding scan_down select
scan_down_lem q zero all found h = sym (append-nil found)
scan_down_lem q (suc n) all found h =
    let (x, e, t) = take-suc all n h in
    rw (e, scan_down_lem q n all (found_at q (some x) found) (omega arith), t, reverse-append)
      (found_at-select x)
  where
    found_at-select :
        (x : Record)
        → found_at q (some x) found ++ select (matches q) (reverse (take n all))
          ≡ found ++ select (matches q) (x ∷ reverse (take n all))
    found_at-select x = elim (Bool-cases (matches q x)) [
      | inl hit ↦ rw hit (append_assoc found (x ∷ []) _)
      | inr miss ↦ rw miss refl
    ]

-- A query returns the records of the ring whose line has the query as a substring, the newest
-- first.
pub handle_query_selects :
    (q : Bytes) (r : Ring) → handle_query q r ≡ select (matches q) (reverse (snapshot r))
unfolding handle_query
handle_query_selects q r =
    let all = snapshot r in
    scan_down_lem q (length all) all [] (omega arith)
    ∙ ap (λ xs. select (matches q) (reverse xs)) (take_all (length all) all (omega arith))

-- Over a whole run: on the ring of a positive capacity `n`, after a push of any streams, a query
-- returns the matching ones among the last `n` records pushed, the newest first.
pub query-push :
    (decode : Bytes → Option (List LogStream)) (n : ℕ) (body q : Bytes) (sts : List LogStream)
    → 0 < n
    → n < 2 ^ 63
    → decode (take max_body_size body) ≡ some sts
    → handle_query q (handle_push decode post body (new_ring n)).1
      ≡ select (matches q) (reverse (last_n n (records_of sts)))
query-push decode n body q sts h k e =
    handle_query_selects q (handle_push decode post body (new_ring n)).1
    ∙ ap (λ xs. select (matches q) (reverse xs)) (held ∙ empty)
  where
    empty :
        last_n (new_ring n).cap (snapshot (new_ring n) ++ records_of sts)
        ≡ last_n n (records_of sts)
    empty = unfold new_ring snapshot in refl

    held :
        snapshot (handle_push decode post body (new_ring n)).1
        ≡ last_n (new_ring n).cap (snapshot (new_ring n) ++ records_of sts)
    held = (handle_push_stores decode body sts (new_ring-IsValid n h k) e).1
