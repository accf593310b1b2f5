-- ===== src/WorkQueue/Redis/Effects.antt =====
-- The documented effects of the Redis commands, on what a client can read of the store.
pub mod Laws
use container_patterns.Common.{
  ℕ, zero, suc, ◌+◌, Bool, true, false, ◌&&◌, ◌||◌, Option, none, some, List, [], ◌∷◌, ◌++◌, Bytes,
  bytes_eq, ltb, leb, ◌==◌, if◌then◌else◌,
}

-- A hash field: a text, or the decimal of a number.
pub data Value : Type 0 where
  text : Bytes → Value
  number : ℕ → Value

-- What the reading commands show: the elements of a list, the members and scores of a sorted set in
-- its order, membership in a set, the fields of a hash, and whether a string key is there.
pub record View : Type 0 where
  pub lists : Bytes → List Bytes
  pub zsets : Bytes → List (Bytes × ℕ)
  pub sets : Bytes → Bytes → Bool
  pub hashes : Bytes → Bytes → Option Value
  pub strings : Bytes → Bool

-- A function with one value changed.
abbrev pub update {ℓ} : {A : Type ℓ} → (Bytes → A) → Bytes → A → Bytes → A
update f k a j = if bytes_eq j k then a else f j

-- The text occurs in the list.
unfoldable pub elem : Bytes → List Bytes → Bool
elem x [] = false
elem x (y ∷ ys) = bytes_eq x y || elem x ys

-- LREM key 1 x: the first occurrence goes.
unfoldable pub remove_first : Bytes → List Bytes → List Bytes
remove_first x [] = []
remove_first x (y ∷ ys) = if bytes_eq x y then ys else y ∷ remove_first x ys

unfoldable pub score : Bytes → List (Bytes × ℕ) → Option ℕ
score m [] = none
score m ((n, s) ∷ z) = if bytes_eq m n then some s else score m z

unfoldable pub remove_member : Bytes → List (Bytes × ℕ) → List (Bytes × ℕ)
remove_member m [] = []
remove_member m ((n, s) ∷ z) =
    if bytes_eq m n then remove_member m z else (n, s) ∷ remove_member m z

-- Bytewise order, which orders members of one score.
unfoldable pub bytes_lt : Bytes → Bytes → Bool
bytes_lt [] [] = false
bytes_lt [] (b ∷ t) = true
bytes_lt (a ∷ s) [] = false
bytes_lt (a ∷ s) (b ∷ t) = ltb a b || (a == b && bytes_lt s t)

-- A member that is not there goes to its place in the order.
unfoldable pub place : Bytes → ℕ → List (Bytes × ℕ) → List (Bytes × ℕ)
place m s [] = (m, s) ∷ []
place m s ((n, t) ∷ z) =
    if ltb s t || (s == t && bytes_lt m n) then (m, s) ∷ (n, t) ∷ z else (n, t) ∷ place m s z

-- ZRANGEBYSCORE key -inf now
unfoldable pub range_by_score : ℕ → List (Bytes × ℕ) → List Bytes
range_by_score now [] = []
range_by_score now ((m, s) ∷ z) =
    if leb s now then m ∷ range_by_score now z else range_by_score now z

abbrev pub rpush : Bytes → Bytes → View → View
rpush k x v = record v { lists = update v.lists k (v.lists k ++ x ∷ []) }

abbrev pub lrem : Bytes → Bytes → View → View
lrem k x v = record v { lists = update v.lists k (remove_first x (v.lists k)) }

-- LMOVE k j LEFT RIGHT of the list that `k` holds.
abbrev pub move_head : Bytes → Bytes → List Bytes → View → View
move_head k j [] v = v
move_head k j (x ∷ xs) v = let taken = record v { lists = update v.lists k xs } in rpush j x taken

abbrev pub blmove : Bytes → Bytes → View → View
blmove k j v = move_head k j (v.lists k) v

abbrev pub del : Bytes → View → View
del k v = record v { lists = update v.lists k [] }

abbrev pub zadd : Bytes → ℕ → Bytes → View → View
zadd k s m v = record v { zsets = update v.zsets k (place m s (remove_member m (v.zsets k))) }

-- GT keeps a higher score; a member that is not there is added.
abbrev pub keep_greater : ℕ → Option ℕ → ℕ
keep_greater s none = s
keep_greater s (some t) = if ltb t s then s else t

abbrev pub zadd_gt : Bytes → ℕ → Bytes → View → View
zadd_gt k s m v = zadd k (keep_greater s (score m (v.zsets k))) m v

abbrev pub zrem : Bytes → Bytes → View → View
zrem k m v = record v { zsets = update v.zsets k (remove_member m (v.zsets k)) }

abbrev pub sadd : Bytes → Bytes → View → View
sadd k m v = record v { sets = update v.sets k (update (v.sets k) m true) }

abbrev pub hset : Bytes → Bytes → Value → View → View
hset k f x v = record v { hashes = update v.hashes k (update (v.hashes k) f (some x)) }

-- HINCRBY key field 1. A field that is not a number is refused, and stays. Redis counts in 64 bits and
-- refuses an overflow; here the number has no bound, since no task is tried 2 ^ 63 times.
abbrev pub increment : Option Value → Option Value
increment none = some (number 1)
increment (some (number n)) = some (number (n + 1))
increment (some (text t)) = some (text t)

abbrev pub hincrby : Bytes → Bytes → View → View
hincrby k f v = record v {
  hashes = update v.hashes k (update (v.hashes k) f (increment (v.hashes k f)));
}

abbrev pub set_key : Bytes → View → View
set_key k v = record v { strings = update v.strings k true }
