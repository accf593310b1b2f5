-- ===== src/LogSink/Ring/Abstract.antt =====
-- The ring without its representation: rings that show the same records are one, and what is left is the
-- type of the lists of at most `n` records.
use mathlib.Core.Path.{transport, transport_refl}
use mathlib.Core.HLevel.{Σ_prop_path}
use mathlib.Core.Equiv.{Iso, iso_to_equiv}
use mathlib.Core.Quot
use mathlib.Core.Quot.{Quot, Quot-set}
use native.Mathlib.Bridge.{le_prop}
use native.Mathlib.Nat.{ℕ_set}
use container_patterns.Common.{
  ℕ, ◌^◌, ◌≤◌, ◌<◌, ◌≡◌, refl, sym, ap, ◌∙◌, List, [], ◌∷◌, ◌++◌, arith, length, last_n, last_n_all,
  length-last_n,
}
use container_patterns.LogSink.Ring.{Record, Ring, new_ring, add, add_all, snapshot}
use container_patterns.LogSink.Ring.Refine.{
  IsValid, add-IsValid, cap-add, snapshot-add, snapshot-fits, new_ring_refines,
}

Record-IsSet : IsSet Record
Record-IsSet = hlevel ℕ_set

Records-IsSet : IsSet (List Record)
Records-IsSet = hlevel Record-IsSet

-- A valid ring of capacity `n`.
abbrev pub Kept : ℕ → Type 0
Kept n = (r : Ring) × IsValid r × (r.cap ≡ n)

-- A caller of snapshot cannot tell them apart.
abbrev pub SameView : (n : ℕ) → Kept n → Kept n → Type 0
SameView n a b = snapshot a.0 ≡ snapshot b.0

abbrev pub Log : ℕ → Type 0
Log n = Quot (SameView n)

abbrev pub Recent : ℕ → Type 0
Recent n = (recs : List Record) × (length recs ≤ n)

Recent-IsSet : (n : ℕ) → IsSet (Recent n)
Recent-IsSet n = hlevel (Records-IsSet, le_prop)

cap-add_all : (recs : List Record) (r : Ring) → (add_all r recs).cap ≡ r.cap
unfolding add_all
cap-add_all [] r = refl
cap-add_all (rec ∷ recs) r = cap-add_all recs (add r rec) ∙ cap-add r rec

cap-new_ring : (n : ℕ) → (new_ring n).cap ≡ n
unfolding new_ring
cap-new_ring n = refl

abbrev pub shown : (n : ℕ) → Kept n → Recent n
shown n (r, v, e) = (snapshot r, omega (arith, snapshot-fits v, e))

-- add, on what is kept.
abbrev pub kept_add : (n : ℕ) → Record → Kept n → Kept n
kept_add n rec (r, v, e) = (add r rec, add-IsValid rec v, cap-add r rec ∙ e)

-- The list with one more record, of which the last `n` are left.
abbrev pub recent_add : (n : ℕ) → Record → Recent n → Recent n
recent_add n rec (recs, h) =
    (last_n n (recs ++ rec ∷ []), omega (arith, length-last_n n (recs ++ rec ∷ [])))

shown-kept_add :
    (n : ℕ) (rec : Record) (a : Kept n) → shown n (kept_add n rec a) ≡ recent_add n rec (shown n a)
shown-kept_add n rec (r, v, e) =
    Σ_prop_path (λ recs. le_prop)
      (snapshot-add rec v ∙ ap (λ c. last_n c (snapshot r ++ rec ∷ [])) e)

pub same_after_add :
    (n : ℕ) (rec : Record) (a b : Kept n)
    → SameView n a b
    → SameView n (kept_add n rec a) (kept_add n rec b)
same_after_add n rec (r, v, e) (r', v', e') h =
    snapshot-add rec v
    ∙ ap (λ c. last_n c (snapshot r ++ rec ∷ [])) (e ∙ sym e')
    ∙ ap (λ l. last_n r'.cap (l ++ rec ∷ [])) h
    ∙ sym (snapshot-add rec v')

-- add, on the ring without its representation.
abbrev pub log_add : (n : ℕ) → Record → Log n → Log n
log_add n rec =
    Quot.lift Quot-set (λ a. Quot.mk (kept_add n rec a))
      (λ a b h. Quot.sound (same_after_add n rec a b h))

-- What a log shows.
log_shown : (n : ℕ) → Log n → Recent n
log_shown n = Quot.lift (Recent-IsSet n) (shown n) (λ a b h. Σ_prop_path (λ recs. le_prop) h)

module _ (n : ℕ) (h : 0 < n) (k : n < 2 ^ 63) where
  -- A ring that shows the records: a new one that has been fed with them.
  filled : Recent n → Kept n
  filled (recs, few) = (
    add_all (new_ring n) recs,
    (new_ring_refines n recs h k).0,
    cap-add_all recs (new_ring n) ∙ cap-new_ring n,
  )

  shown-filled : (l : Recent n) → shown n (filled l) ≡ l
  unfolding filled
  shown-filled (recs, few) =
      Σ_prop_path (λ l. le_prop) ((new_ring_refines n recs h k).1 ∙ last_n_all n recs few)

  log_iso : Iso (Log n) (Recent n)
  unfolding log_shown
  log_iso = record {
    fun = log_shown n;
    inv = λ l. Quot.mk (filled l);
    rinv = shown-filled;
    linv =
        Quot.ind (λ q. Quot-set _ _)
          (λ a. Quot.sound (ap (λ (l : Recent n). l.0) (shown-filled (shown n a))));
  }

  log_shown-add :
      (rec : Record) (q : Log n) → log_shown n (log_add n rec q) ≡ recent_add n rec (log_shown n q)
  unfolding log_shown
  log_shown-add rec = Quot.ind (λ q. Recent-IsSet n _ _) (shown-kept_add n rec)

  abbrev line : Log n ≡ Recent n
  line = λ i. V i (Log n) (Recent n) (iso_to_equiv log_iso)

  along : (q : Log n) → transport line q ≡ log_shown n q
  unfolding transport log_iso
  along q = transport_refl (log_shown n q)

  -- Valid rings of capacity `n`, taken to be the same if their snapshots are, are the lists of at most
  -- `n` records, for any capacity from 1 to 2^63 - 1: the two types are equal, and along that equation add
  -- is to append the record and to leave the last `n`. So nothing but the last `n` records can be
  -- observed of a ring, and every such list is that of a ring.
  pub log_is_recent :
      (p : Log n ≡ Recent n) × ((rec : Record) (q : Log n)
        → transport p (log_add n rec q) ≡ recent_add n rec (transport p q))
  log_is_recent = (
    line,
    λ rec q. along (log_add n rec q) ∙ log_shown-add rec q ∙ ap (recent_add n rec) (sym (along q)),
  )
