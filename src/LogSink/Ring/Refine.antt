-- ===== src/LogSink/Ring/Refine.antt =====
-- The ring holds the last `cap` of the records added to it, oldest first.
use container_patterns.Common.{
  ℕ, suc, ◌+◌, ◌^◌, ◌≤◌, ◌<◌, Bool, true, false, List, [], ◌∷◌, ◌++◌, ◌≡◌, refl, sym, ◌∙◌, ◌⊎◌, inl,
  inr, arith, length, take, drop, set, length-set, length-take, length-drop, length-append,
  length-replicate, take_all, drop_all, take-suc-set, drop-suc-set, drop_tail, last_n,
  last_n-append, last_n_all, last_n-cons, if◌then◌else◌, suc-==-zero, append-nil, append_assoc,
}
use container_patterns.LogSink.Ring.{Record, Ring, advance, new_ring, add, add_all, snapshot}

-- What holds of a ring between two calls. A Go `int` bounds the capacity.
pub record IsValid (r : Ring) : Type 0 where
  pub sized : length r.buf ≡ r.cap
  pub next_in : r.next < r.cap
  pub small : r.cap < 2 ^ 63

-- A new ring of positive capacity is valid.
pub new_ring-IsValid : (n : ℕ) → 0 < n → n < 2 ^ 63 → IsValid (new_ring n)
unfolding new_ring
new_ring-IsValid n h k = record { sized = length-replicate n _; next_in = h; small = k }

-- The index written is inside the buffer.
pub in_bounds : {r : Ring} → IsValid r → r.next < length r.buf
in_bounds v = omega arith

advance-cases :
    (n i : ℕ)
    → i < n
    → n < 2 ^ 63
    → ((i + 1 < n) × (advance n i ≡ suc i)) ⊎ ((i + 1 ≡ n) × (advance n i ≡ 0))
unfolding advance
advance-cases n i h k = grind arith

-- `add` keeps a ring valid, and its capacity.
pub add-IsValid : {r : Ring} (rec : Record) → IsValid r → IsValid (add r rec)
unfolding add
add-IsValid {r} rec v =
    ground (arith, length-set r.buf r.next rec, advance-cases r.cap r.next v.next_in v.small)

pub cap-add : (r : Ring) (rec : Record) → (add r rec).cap ≡ r.cap
unfolding add
cap-add r rec = refl

pub length-snapshot :
    {r : Ring} → IsValid r → length (snapshot r) ≡ (if r.full then r.cap else r.next)
unfolding snapshot
length-snapshot {r} v = ground (
  arith,
  length-append (drop r.next r.buf) (take r.next r.buf),
  length-take r.next r.buf,
  length-drop r.next r.buf,
)

-- The two halves of a buffer after a write at `i`, read round from `i + 1`.
round_full :
    (buf : List Record) (i : ℕ) (rec : Record)
    → i < length buf
    → drop (suc i) (set buf i rec) ++ take (suc i) (set buf i rec)
      ≡ last_n (length buf) ((drop i buf ++ take i buf) ++ rec ∷ [])
round_full buf i rec h =
    let (x, e) = drop_tail buf i h in
    rw (e, drop-suc-set, take-suc-set buf i rec h, append_assoc)
      (sym (last_n-cons (length buf) x (drop (suc i) buf ++ (take i buf ++ rec ∷ [])) (sized x e)))
  where
    sized :
        (x : Record)
        → drop i buf ≡ x ∷ drop (suc i) buf
        → length (drop (suc i) buf ++ (take i buf ++ rec ∷ [])) ≡ length buf
    sized x e = omega (
      arith,
      length-append (drop (suc i) buf) (take i buf ++ rec ∷ []),
      length-append (take i buf) (rec ∷ []),
      length-drop (suc i) buf,
      length-take i buf,
    )

round_short :
    (buf : List Record) (i n : ℕ) (rec : Record)
    → i < length buf
    → suc i ≤ n
    → take (suc i) (set buf i rec) ≡ last_n n (take i buf ++ rec ∷ [])
round_short buf i n rec h k =
    take-suc-set buf i rec h
    ∙ sym (last_n_all n _ (omega (arith, length-append (take i buf) (rec ∷ []), length-take i buf)))

wrapped_round :
    (buf : List Record) (i : ℕ) (rec : Record) (full : Bool)
    → i + 1 ≡ length buf
    → set buf i rec
      ≡ last_n (length buf) ((if full then drop i buf ++ take i buf else take i buf) ++ rec ∷ [])
wrapped_round buf i rec true h =
    let whole = round_full buf i rec (omega arith) in
    rw
      (
        drop_all (suc i) (set buf i rec) (omega (arith, length-set buf i rec)),
        take_all (suc i) (set buf i rec) (omega (arith, length-set buf i rec)),
      )
      at whole
wrapped_round buf i rec false h =
    rw (← round_short buf i (length buf) rec (omega arith) (omega arith))
      (sym (take_all (suc i) (set buf i rec) (omega (arith, length-set buf i rec))))

next_round :
    (buf : List Record) (i : ℕ) (rec : Record) (full : Bool)
    → i + 1 < length buf
    → (if full
        then drop (suc i) (set buf i rec) ++ take (suc i) (set buf i rec)
        else take (suc i) (set buf i rec))
      ≡ last_n (length buf) ((if full then drop i buf ++ take i buf else take i buf) ++ rec ∷ [])
next_round buf i rec true h = round_full buf i rec (omega arith)
next_round buf i rec false h = round_short buf i (length buf) rec (omega arith) (omega arith)

-- After `add` the ring holds the last `cap` of what it held and the new record.
pub snapshot-add :
    {r : Ring} (rec : Record)
    → IsValid r
    → snapshot (add r rec) ≡ last_n r.cap (snapshot r ++ rec ∷ [])
unfolding snapshot add
snapshot-add {r} rec v = elim (advance-cases r.cap r.next v.next_in v.small) [
  | inl (lt, e) ↦ rw (e, suc-==-zero, ← v.sized) (next_round r.buf r.next rec r.full (omega arith))
  | inr (eq, e) ↦
      rw (e, ← v.sized, append-nil) (wrapped_round r.buf r.next rec r.full (omega arith))
]

pub add_all-IsValid : (recs : List Record) {r : Ring} → IsValid r → IsValid (add_all r recs)
unfolding add_all
add_all-IsValid [] v = v
add_all-IsValid (rec ∷ recs) v = add_all-IsValid recs (add-IsValid rec v)

pub snapshot-fits : {r : Ring} → IsValid r → length (snapshot r) ≤ r.cap
snapshot-fits {r} v = ground (arith, length-snapshot v, v)

-- However many records are added to a valid ring, it then holds the last `cap` of what it held
-- followed by them, in order.
pub snapshot-add_all :
    (recs : List Record) {r : Ring}
    → IsValid r
    → snapshot (add_all r recs) ≡ last_n r.cap (snapshot r ++ recs)
unfolding add_all
snapshot-add_all [] {r} v = sym (rw append-nil (last_n_all r.cap (snapshot r) (snapshot-fits v)))
snapshot-add_all (rec ∷ recs) {r} v =
    snapshot-add_all recs (add-IsValid rec v)
    ∙ simp (cap-add, snapshot-add rec v, last_n-append, append_assoc)

-- A new ring of positive capacity that is fed any records holds exactly the last `n` of them, the
-- oldest first, and stays valid.
pub new_ring_refines :
    (n : ℕ) (recs : List Record)
    → 0 < n
    → n < 2 ^ 63
    → IsValid (add_all (new_ring n) recs) × (snapshot (add_all (new_ring n) recs) ≡ last_n n recs)
new_ring_refines n recs h k =
    let v = new_ring-IsValid n h k in
    (add_all-IsValid recs v, snapshot-add_all recs v ∙ unfold new_ring snapshot in refl)
