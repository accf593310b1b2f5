-- ===== src/WorkQueue/Redis/Effects/Laws.antt =====
-- Laws of lists and sorted sets as the commands change them.
use container_patterns.Common.{
  ℕ, ◌≡◌, refl, ◌≢◌, true, false, none, some, List, [], ◌∷◌, ◌++◌, arith, Bytes, bytes_eq,
  bytes_eq_iff, if◌then◌else◌, ◌||◌,
}
use container_patterns.WorkQueue.Redis.Effects.{elem, remove_first, score, remove_member, place}

pub bytes_eq_refl : (s : Bytes) → bytes_eq s s ≡ true
bytes_eq_refl s = (bytes_eq_iff s s).1 refl

pub bytes_eq_ne : (s t : Bytes) → s ≢ t → bytes_eq s t ≡ false
bytes_eq_ne s t h = ground (arith, bytes_eq_iff s t)

pub elem_cons :
    (x y : Bytes) (ys : List Bytes)
    → elem x (y ∷ ys) ≡ false
    → (bytes_eq x y ≡ false) × (elem x ys ≡ false)
unfolding elem
elem_cons x y ys h = ground arith

pub elem-append : (x : Bytes) (xs ys : List Bytes) → elem x (xs ++ ys) ≡ (elem x xs || elem x ys)
unfolding elem
elem-append x [] ys = refl
elem-append x (y ∷ xs) ys = ground (arith, elem-append x xs ys)

pub elem-snoc_self : (x : Bytes) (xs : List Bytes) → elem x (xs ++ x ∷ []) ≡ true
unfolding elem
elem-snoc_self x [] = ground (arith, bytes_eq_refl x)
elem-snoc_self x (y ∷ xs) = ground (arith, elem-snoc_self x xs)

pub elem-snoc : (x y : Bytes) (xs : List Bytes) → elem x xs ≡ true → elem x (xs ++ y ∷ []) ≡ true
elem-snoc x y xs h = ground (arith, elem-append x xs (y ∷ []))

pub elem-remove_first_ne :
    (x y : Bytes) (xs : List Bytes) → bytes_eq x y ≡ false → elem x (remove_first y xs) ≡ elem x xs
unfolding elem remove_first
elem-remove_first_ne x y [] h = refl
elem-remove_first_ne x y (z ∷ xs) h =
    ground
      (arith, elem-remove_first_ne x y xs h, bytes_eq_iff y z, bytes_eq_iff x z, bytes_eq_iff x y)

pub score-remove_member :
    (x y : Bytes) (z : List (Bytes × ℕ))
    → score x (remove_member y z) ≡ (if bytes_eq x y then none else score x z)
unfolding score remove_member
score-remove_member x y [] = ground arith
score-remove_member x y ((n, s) ∷ z) =
    ground (arith, score-remove_member x y z, bytes_eq_iff x y, bytes_eq_iff y n, bytes_eq_iff x n)

pub score-place :
    (x y : Bytes) (s : ℕ) (z : List (Bytes × ℕ))
    → score y z ≡ none
    → score x (place y s z) ≡ (if bytes_eq x y then some s else score x z)
unfolding score place
score-place x y s [] h = refl
score-place x y s ((n, t) ∷ z) h =
    ground (arith, score-place x y s z, bytes_eq_iff x y, bytes_eq_iff y n, bytes_eq_iff x n)

-- ZADD gives the member its score and leaves the others.
pub score-zadd :
    (x y : Bytes) (s : ℕ) (z : List (Bytes × ℕ))
    → score x (place y s (remove_member y z)) ≡ (if bytes_eq x y then some s else score x z)
score-zadd x y s z = ground (
  arith,
  score-place x y s (remove_member y z),
  score-remove_member y y z,
  score-remove_member x y z,
  bytes_eq_refl y,
)
