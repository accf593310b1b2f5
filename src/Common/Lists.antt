-- ===== src/Common/Lists.antt =====
-- Lists measured and indexed by native numbers, under the library's names, and their laws.
use Prim.Native.Nat.{ℕ, zero, suc, ◌+◌, ◌-◌, ◌≤◌, ◌<◌, min}
use mathlib.Core.Path.{◌≡◌, refl, sym, ap, ◌∙◌}
use mathlib.Core.Bool.{Bool}
use mathlib.Core.List.{List, [], ◌∷◌, ◌++◌, map}
use mathlib.Core.Option.{Option, none, some}
use native.Mathlib.Nat.{suc-add}
use native.Mathlib.Omega.{arith}
use container_patterns.Common.Tests.{if◌then◌else◌}

module _ {ℓ} {A : Type ℓ} where
  abbrev pub length : List A → ℕ
  length [] = 0
  length (x ∷ xs) = suc (length xs)

  abbrev pub get_elem? : List A → ℕ → Option A
  get_elem? [] i = none
  get_elem? (x ∷ xs) zero = some x
  get_elem? (x ∷ xs) (suc i) = get_elem? xs i

  -- A write out of bounds changes nothing.
  abbrev pub set : List A → ℕ → A → List A
  set [] i v = []
  set (x ∷ xs) zero v = v ∷ xs
  set (x ∷ xs) (suc i) v = x ∷ set xs i v

  abbrev pub take : ℕ → List A → List A
  take zero xs = []
  take (suc n) [] = []
  take (suc n) (x ∷ xs) = x ∷ take n xs

  abbrev pub drop : ℕ → List A → List A
  drop zero xs = xs
  drop (suc n) [] = []
  drop (suc n) (x ∷ xs) = drop n xs

  abbrev pub replicate : ℕ → A → List A
  replicate zero a = []
  replicate (suc n) a = a ∷ replicate n a

  -- The elements that pass a Boolean test, in order.
  unfoldable pub select : (A → Bool) → List A → List A
  select p [] = []
  select p (x ∷ xs) = if p x then x ∷ select p xs else select p xs

module _ {ℓ} {A : Type ℓ} where
  pub length-append : (xs ys : List A) → length (xs ++ ys) ≡ length xs + length ys
  length-append [] ys = omega arith
  length-append (x ∷ xs) ys = omega (arith, length-append xs ys)

  pub length-set : (xs : List A) (i : ℕ) (v : A) → length (set xs i v) ≡ length xs
  length-set [] i v = refl
  length-set (x ∷ xs) zero v = refl
  length-set (x ∷ xs) (suc i) v = ap suc (length-set xs i v)

  pub length-take : (n : ℕ) (xs : List A) → length (take n xs) ≡ min n (length xs)
  length-take zero xs = omega arith
  length-take (suc n) [] = omega arith
  length-take (suc n) (x ∷ xs) = omega (arith, length-take n xs)

  pub length-drop : (n : ℕ) (xs : List A) → length (drop n xs) ≡ length xs - n
  length-drop zero xs = omega arith
  length-drop (suc n) [] = omega arith
  length-drop (suc n) (x ∷ xs) = omega (arith, length-drop n xs)

  pub length-replicate : (n : ℕ) (a : A) → length (replicate n a) ≡ n
  length-replicate zero a = refl
  length-replicate (suc n) a = ap suc (length-replicate n a)

  pub length-map {κ} : {B : Type κ} (f : A → B) (xs : List A) → length (map f xs) ≡ length xs
  length-map f [] = refl
  length-map f (x ∷ xs) = ap suc (length-map f xs)

  pub take_all : (n : ℕ) (xs : List A) → length xs ≤ n → take n xs ≡ xs
  take_all zero [] h = refl
  take_all zero (x ∷ xs) h = absurd (omega arith)
  take_all (suc n) [] h = refl
  take_all (suc n) (x ∷ xs) h = ap (◌∷◌ x) (take_all n xs (omega arith))

  pub drop_all : (n : ℕ) (xs : List A) → length xs ≤ n → drop n xs ≡ []
  drop_all zero [] h = refl
  drop_all zero (x ∷ xs) h = absurd (omega arith)
  drop_all (suc n) [] h = refl
  drop_all (suc n) (x ∷ xs) h = drop_all n xs (omega arith)

  pub take-length-append : (xs ys : List A) → take (length xs) (xs ++ ys) ≡ xs
  take-length-append [] ys = refl
  take-length-append (x ∷ xs) ys = ap (◌∷◌ x) (take-length-append xs ys)

  pub drop-length-append : (xs ys : List A) → drop (length xs) (xs ++ ys) ≡ ys
  drop-length-append [] ys = refl
  drop-length-append (x ∷ xs) ys = drop-length-append xs ys

  pub drop-append : (n : ℕ) (xs ys : List A) → n ≤ length xs → drop n (xs ++ ys) ≡ drop n xs ++ ys
  drop-append zero xs ys h = refl
  drop-append (suc n) [] ys h = absurd (omega arith)
  drop-append (suc n) (x ∷ xs) ys h = drop-append n xs ys (omega arith)

  pub take-append-drop : (n : ℕ) (xs : List A) → take n xs ++ drop n xs ≡ xs
  take-append-drop zero xs = refl
  take-append-drop (suc n) [] = refl
  take-append-drop (suc n) (x ∷ xs) = ap (◌∷◌ x) (take-append-drop n xs)

  pub drop-nil : (n : ℕ) → drop {A = A} n [] ≡ []
  drop-nil zero = refl
  drop-nil (suc n) = refl

  pub drop-drop : (m n : ℕ) (xs : List A) → drop m (drop n xs) ≡ drop (n + m) xs
  drop-drop m zero xs = ap (λ k. drop k xs) (omega arith)
  drop-drop m (suc n) [] = drop-nil m ∙ sym (drop-nil (suc n + m))
  drop-drop m (suc n) (x ∷ xs) = drop-drop m n xs ∙ sym (ap (λ k. drop k (x ∷ xs)) (suc-add n m))

  -- The last `n` elements.
  unfoldable pub last_n : ℕ → List A → List A
  last_n n xs = drop (length xs - n) xs

  pub length-last_n : (n : ℕ) (xs : List A) → length (last_n n xs) ≡ min n (length xs)
  unfolding last_n
  length-last_n n xs = omega (arith, length-drop (length xs - n) xs)

  -- Of a list that grows at its end, the last `n` are found from the last `n` before.
  pub last_n-append : (n : ℕ) (xs ys : List A) → last_n n (last_n n xs ++ ys) ≡ last_n n (xs ++ ys)
  unfolding last_n
  last_n-append n xs ys =
      let k = length xs - n in
      rw (← drop-append k xs ys (omega arith), drop-drop, length-drop, length-append)
        (ap (λ i. drop i (xs ++ ys)) (omega arith))

  pub take-suc-set :
      (xs : List A) (i : ℕ) (v : A)
      → i < length xs
      → take (suc i) (set xs i v) ≡ take i xs ++ v ∷ []
  take-suc-set [] i v h = absurd (omega arith)
  take-suc-set (x ∷ xs) zero v h = refl
  take-suc-set (x ∷ xs) (suc i) v h = ap (◌∷◌ x) (take-suc-set xs i v (omega arith))

  pub drop-suc-set : (xs : List A) (i : ℕ) (v : A) → drop (suc i) (set xs i v) ≡ drop (suc i) xs
  drop-suc-set [] i v = refl
  drop-suc-set (x ∷ xs) zero v = refl
  drop-suc-set (x ∷ xs) (suc i) v = drop-suc-set xs i v

  pub drop_tail :
      (xs : List A) (i : ℕ) → i < length xs → (x : A) × (drop i xs ≡ x ∷ drop (suc i) xs)
  drop_tail [] i h = absurd (omega arith)
  drop_tail (x ∷ xs) zero h = (x, refl)
  drop_tail (x ∷ xs) (suc i) h = drop_tail xs i (omega arith)

  pub last_n_all : (n : ℕ) (xs : List A) → length xs ≤ n → last_n n xs ≡ xs
  unfolding last_n
  last_n_all n xs h = ap (λ k. drop k xs) {x = length xs - n} {y = 0} (omega arith)

  pub last_n-cons : (n : ℕ) (x : A) (xs : List A) → length xs ≡ n → last_n n (x ∷ xs) ≡ xs
  unfolding last_n
  last_n-cons n x xs h = ap (λ k. drop k (x ∷ xs)) {x = length (x ∷ xs) - n} {y = 1} (omega arith)

  pub take-suc :
      (xs : List A) (i : ℕ)
      → i < length xs
      → (x : A) × (get_elem? xs i ≡ some x) × (take (suc i) xs ≡ take i xs ++ x ∷ [])
  take-suc [] i h = absurd (omega arith)
  take-suc (x ∷ xs) zero h = (x, refl, refl)
  take-suc (x ∷ xs) (suc i) h = let (y, e, t) = take-suc xs i (omega arith) in (y, e, ap (◌∷◌ x) t)

-- Every element has the property.
abbrev pub All {ℓ κ} : {A : Type ℓ} → (A → Type κ) → List A → Type κ
All P [] = Unit
All P (x ∷ xs) = P x × All P xs

pub All-append {ℓ κ} :
    {A : Type ℓ} (P : A → Type κ) (xs ys : List A) → All P xs → All P ys → All P (xs ++ ys)
All-append P [] ys h k = k
All-append P (x ∷ xs) ys h k = (h.0, All-append P xs ys h.1 k)
