-- ===== src/Inventory/Scatter/Order.antt =====
-- The order in which the leaves end does not matter.
use mathlib.Core.Path.{subst}
use container_patterns.Common.{
  ℕ, zero, suc, ◌+◌, ◌<◌, ◌≡◌, refl, sym, ap, ◌∙◌, ◌⊎◌, inl, inr, Bool, true, false, ◌||◌, Option,
  none, some, List, [], ◌∷◌, arith, Bytes, length, length-set, length-replicate, get_elem?, set,
  replicate, Bool-cases, ==_iff, ◌==◌,
}
use container_patterns.Inventory.Scatter.{Partial, zero_partial, write_slot, run_leaves, scatter}

-- The partials in the configured order, the first leaf's number being `i`.
unfoldable pub in_order : (ℕ → Bytes → Partial) → ℕ → List Bytes → List Partial
in_order call i [] = []
in_order call i (ep ∷ eps) = call i ep ∷ in_order call (suc i) eps

unfoldable pub member : ℕ → List ℕ → Bool
member i [] = false
member i (j ∷ js) = i == j || member i js

module _ {ℓ} {A : Type ℓ} where
  get_elem?-set : (xs : List A) (i : ℕ) (v : A) → i < length xs → get_elem? (set xs i v) i ≡ some v
  get_elem?-set [] i v h = absurd (omega arith)
  get_elem?-set (x ∷ xs) zero v h = refl
  get_elem?-set (x ∷ xs) (suc i) v h = get_elem?-set xs i v (omega arith)

  get_elem?-set_other :
      (xs : List A) (i j : ℕ) (v : A) → (i == j) ≡ false → get_elem? (set xs i v) j ≡ get_elem? xs j
  get_elem?-set_other [] i j v h = refl
  get_elem?-set_other (x ∷ xs) zero zero v h = ground arith
  get_elem?-set_other (x ∷ xs) zero (suc j) v h = refl
  get_elem?-set_other (x ∷ xs) (suc i) zero v h = refl
  get_elem?-set_other (x ∷ xs) (suc i) (suc j) v h = get_elem?-set_other xs i j v (ground arith)

  -- Lists of one length that agree everywhere are equal.
  List-ext :
      (xs ys : List A)
      → length xs ≡ length ys
      → ((i : ℕ) → i < length ys → get_elem? xs i ≡ get_elem? ys i)
      → xs ≡ ys
  List-ext [] [] e h = refl
  List-ext [] (y ∷ ys) e h = absurd (omega arith)
  List-ext (x ∷ xs) [] e h = absurd (omega arith)
  List-ext (x ∷ xs) (y ∷ ys) e h =
      let here : some x ≡ some y = h 0 (omega arith) in
      let later = List-ext xs ys (omega arith) (λ i l. h (suc i) (omega arith)) in cc

length-in_order :
    (call : ℕ → Bytes → Partial) (i : ℕ) (eps : List Bytes)
    → length (in_order call i eps) ≡ length eps
unfolding in_order
length-in_order call i [] = refl
length-in_order call i (ep ∷ eps) = ap suc (length-in_order call (suc i) eps)

get_elem?-in_order :
    (call : ℕ → Bytes → Partial) (i : ℕ) (eps : List Bytes) (j : ℕ)
    → j < length eps
    → (ep : Bytes) × (get_elem? eps j ≡ some ep)
      × (get_elem? (in_order call i eps) j ≡ some (call (i + j) ep))
unfolding in_order
get_elem?-in_order call i [] j h = absurd (omega arith)
get_elem?-in_order call i (ep ∷ eps) zero h = (ep, refl, ap (λ n. some (call n ep)) (omega arith))
get_elem?-in_order call i (ep ∷ eps) (suc j) h =
    let (e, found, there) = get_elem?-in_order call (suc i) eps j (omega arith) in
    let same : suc i + j ≡ i + suc j = omega arith in
    (e, found, there ∙ ap (λ n. some (call n e)) same)

module _ (call : ℕ → Bytes → Partial) (eps : List Bytes) where
  length-write_slot :
      (i : ℕ) (slots : List Partial) → length (write_slot call eps i slots) ≡ length slots
  unfolding write_slot
  length-write_slot i slots = written (get_elem? eps i)
    where
      written :
          (o : Option Bytes)
          → length (elim o [ none ↦ slots | some ep ↦ set slots i (call i ep) ]) ≡ length slots
      written none = refl
      written (some ep) = length-set slots i (call i ep)

  length-run_leaves :
      (order : List ℕ) (slots : List Partial)
      → length (run_leaves call eps order slots) ≡ length slots
  unfolding run_leaves
  length-run_leaves [] slots = refl
  length-run_leaves (i ∷ order) slots =
      length-run_leaves order (write_slot call eps i slots) ∙ length-write_slot i slots

  -- A write to a slot, and to another one.
  write_slot_here :
      (j : ℕ) {ep : Bytes} (slots : List Partial)
      → get_elem? eps j ≡ some ep
      → j < length slots
      → get_elem? (write_slot call eps j slots) j ≡ some (call j ep)
  unfolding write_slot
  write_slot_here j {ep} slots e h = rw (write_slot, e) (get_elem?-set slots j (call j ep) h)

  write_slot_other :
      (i j : ℕ) (slots : List Partial)
      → (i == j) ≡ false
      → get_elem? (write_slot call eps i slots) j ≡ get_elem? slots j
  unfolding write_slot
  write_slot_other i j slots h = written (get_elem? eps i)
    where
      written :
          (o : Option Bytes)
          → get_elem? (elim o [ none ↦ slots | some ep ↦ set slots i (call i ep) ]) j
            ≡ get_elem? slots j
      written none = refl
      written (some ep) = get_elem?-set_other slots i j (call i ep) h

  -- A slot that has its leaf's partial keeps it.
  run_leaves_keeps :
      (order : List ℕ) (j : ℕ) {ep : Bytes} (slots : List Partial)
      → get_elem? eps j ≡ some ep
      → j < length slots
      → get_elem? slots j ≡ some (call j ep)
      → get_elem? (run_leaves call eps order slots) j ≡ some (call j ep)
  unfolding run_leaves
  run_leaves_keeps [] j slots e h k = k
  run_leaves_keeps (i ∷ order) j {ep} slots e h k =
      run_leaves_keeps order j (write_slot call eps i slots) e
        (omega (arith, length-write_slot i slots)) (written (Bool-cases (i == j)))
    where
      written :
          ((i == j) ≡ true) ⊎ ((i == j) ≡ false)
          → get_elem? (write_slot call eps i slots) j ≡ some (call j ep)
      written (inl same) =
          let e' : i ≡ j = (==_iff i j).0 same in
          subst (λ n. get_elem? (write_slot call eps n slots) j ≡ some (call j ep)) (sym e')
            (write_slot_here j slots e h)
      written (inr other) = write_slot_other i j slots other ∙ k

  run_leaves_writes :
      (order : List ℕ) (j : ℕ) {ep : Bytes} (slots : List Partial)
      → get_elem? eps j ≡ some ep
      → j < length slots
      → member j order ≡ true
      → get_elem? (run_leaves call eps order slots) j ≡ some (call j ep)
  unfolding run_leaves member
  run_leaves_writes [] j slots e h m = cc
  run_leaves_writes (i ∷ order) j {ep} slots e h m =
      ends (Bool-cases (j == i))
        (λ t. run_leaves_writes order j (write_slot call eps i slots) e sizes t)
    where
      sizes : j < length (write_slot call eps i slots)
      sizes = omega (arith, length-write_slot i slots)

      Goal : Type 0
      Goal =
          get_elem? (run_leaves call eps order (write_slot call eps i slots)) j ≡ some (call j ep)

      ends : ((j == i) ≡ true) ⊎ ((j == i) ≡ false) → (member j order ≡ true → Goal) → Goal
      ends (inl same) later =
          let e' : j ≡ i = (==_iff j i).0 same in
          run_leaves_keeps order j (write_slot call eps i slots) e sizes (
            subst (λ n. get_elem? (write_slot call eps n slots) j ≡ some (call j ep)) e'
              (write_slot_here j slots e h))
      ends (inr other) later = later (rw other at m)

-- In whatever order the leaves' requests end, each leaf once or more, the gathered partials are the
-- leaves' own, one for each leaf, in the configured order.
pub scatter_any_order :
    (call : ℕ → Bytes → Partial) (eps : List Bytes) (order : List ℕ)
    → ((i : ℕ) → i < length eps → member i order ≡ true)
    → scatter call eps order ≡ in_order call 0 eps
unfolding scatter
scatter_any_order call eps order all =
    List-ext _ _ sizes (λ i h. agree i (omega (arith, length-in_order call 0 eps)))
  where
    start : List Partial
    start = replicate (length eps) zero_partial

    sizes : length (run_leaves call eps order start) ≡ length (in_order call 0 eps)
    sizes =
        length-run_leaves call eps order start
        ∙ length-replicate (length eps) zero_partial
        ∙ sym (length-in_order call 0 eps)

    agree :
        (i : ℕ)
        → i < length eps
        → get_elem? (run_leaves call eps order start) i ≡ get_elem? (in_order call 0 eps) i
    agree i h =
        let (ep, found, there) = get_elem?-in_order call 0 eps i h in
        let shift : i ≡ 0 + i = omega arith in
        run_leaves_writes call eps order i start found
          (omega (arith, length-replicate (length eps) zero_partial)) (all i h)
        ∙ ap (λ n. some (call n ep)) shift
        ∙ sym there
