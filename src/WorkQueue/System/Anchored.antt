-- ===== src/WorkQueue/System/Anchored.antt =====
-- Where a task is safe: found in the store otherwise than by the entry of a worker that is about to
-- remove it.
use container_patterns.Common.{
  ℕ, ◌≡◌, refl, sym, ap, ◌∙◌, ◌⊎◌, inl, inr, Bool, true, false, some, List, [], ◌∷◌, arith, Bytes,
  bytes_eq, bytes_eq_iff, Bool-cases, ltb, if◌then◌else◌, trim_prefix,
}
use container_patterns.WorkQueue.Redis.Effects
use container_patterns.WorkQueue.Redis.Effects.{View, elem, score, update, remove_member}
use container_patterns.WorkQueue.Redis.Effects.Laws.{
  bytes_eq_refl, elem-snoc_self, elem-remove_first_ne, score-remove_member,
}
use container_patterns.WorkQueue.Keys.{
  ready_key, inflight_key, dead_key, done_key, processing_key, processing_key_differs, keys_differ,
}
use container_patterns.WorkQueue.Tracking.{
  IsTracked, in_ready, in_dead, in_processing, in_flight, is_done, elem-rpush, retried,
  retried_lands, target_key,
}
use container_patterns.WorkQueue.Coordinator.Drain.{IsPushed, worker_of_key}
use container_patterns.WorkQueue.System.{Phase, idle, moved, dropping, claimed, started}

-- The worker has the task in hand, and its next LREM may be on it.
abbrev pub holds : Phase → Bytes → Bool
holds idle j = false
holds (moved id) j = false
holds (dropping id) j = bytes_eq j id
holds (claimed id) j = false
holds (started id) j = bytes_eq j id

pub data IsAnchored (phase : Bytes → Phase) (v : View) (j : Bytes) : Type 0 where
  ready : elem j (v.lists ready_key) ≡ true → IsAnchored phase v j
  dead : elem j (v.lists dead_key) ≡ true → IsAnchored phase v j
  flight : (s : ℕ) → score j (v.zsets inflight_key) ≡ some s → IsAnchored phase v j
  done : v.sets done_key j ≡ true → IsAnchored phase v j
  listed :
      (u : Bytes)
      → elem j (v.lists (processing_key u)) ≡ true
      → holds (phase u) j ≡ false
      → IsAnchored phase v j

pub IsAnchored→IsTracked :
    {phase : Bytes → Phase} {v : View} {j : Bytes} → IsAnchored phase v j → IsTracked v j
IsAnchored→IsTracked (ready h) = in_ready h
IsAnchored→IsTracked (dead h) = in_dead h
IsAnchored→IsTracked (flight s h) = in_flight s h
IsAnchored→IsTracked (done h) = is_done h
IsAnchored→IsTracked (listed u h k) = in_processing u h

-- A command that takes the task from no list and from no set keeps it safe.
pub record Grows (j : Bytes) (v v' : View) : Type 0 where
  pub lists : (k : Bytes) → elem j (v.lists k) ≡ true → elem j (v'.lists k) ≡ true
  pub flight :
      (s : ℕ)
      → score j (v.zsets inflight_key) ≡ some s
      → (t : ℕ) × (score j (v'.zsets inflight_key) ≡ some t)
  pub done : v.sets done_key j ≡ true → v'.sets done_key j ≡ true

pub Grows-IsAnchored :
    {phase : Bytes → Phase} {v v' : View} {j : Bytes}
    → Grows j v v'
    → IsAnchored phase v j
    → IsAnchored phase v' j
Grows-IsAnchored g (ready h) = ready (g.lists ready_key h)
Grows-IsAnchored g (dead h) = dead (g.lists dead_key h)
Grows-IsAnchored g (flight s h) = let (t, e) = g.flight s h in flight t e
Grows-IsAnchored g (done h) = done (g.done h)
Grows-IsAnchored g (listed u h k) = listed u (g.lists (processing_key u) h) k

-- Safe whatever the workers have in hand.
abbrev pub IsKept : View → Bytes → Type 0
IsKept v j = (v.sets done_key j ≡ true) ⊎ ((s : ℕ) × (score j (v.zsets inflight_key) ≡ some s))

-- A worker changes its phase; it may take the task in hand if that is kept otherwise.
pub update-IsAnchored :
    {phase : Bytes → Phase} {v : View} {j : Bytes} (w : Bytes) (p : Phase)
    → (holds p j ≡ true → IsKept v j)
    → IsAnchored phase v j
    → IsAnchored (update phase w p) v j
update-IsAnchored w p kept (ready h) = ready h
update-IsAnchored w p kept (dead h) = dead h
update-IsAnchored w p kept (flight s h) = flight s h
update-IsAnchored w p kept (done h) = done h
update-IsAnchored {phase} {v} {j} w p kept (listed u h k) = elim (Bool-cases (holds p j)) [
  | inl taken ↦ elim (kept taken) [ inl d ↦ done d | inr (s, e) ↦ flight s e ]
  | inr free ↦ listed u h (split free (bytes_eq u w))
]
  where
    split : holds p j ≡ false → (b : Bool) → holds (if b then p else phase u) j ≡ false
    split free true = free
    split free false = k

-- Different workers have different lists.
pub same_worker : (u w : Bytes) → bytes_eq (processing_key u) (processing_key w) ≡ true → u ≡ w
same_worker u w h =
    sym (worker_of_key u)
    ∙ ap (λ k. trim_prefix k (processing_key [])) ((bytes_eq_iff _ _).0 h)
    ∙ worker_of_key w

-- LREM by the worker that has the task `id` in hand.
pub lrem-IsAnchored :
    {phase : Bytes → Phase} {j : Bytes} (w id : Bytes) (v : View)
    → holds (phase w) id ≡ true
    → IsAnchored phase v j
    → IsAnchored phase (Effects.lrem (processing_key w) id v) j
lrem-IsAnchored w id v hand (ready h) = ready (rw (processing_key_differs w).0 h)
lrem-IsAnchored w id v hand (dead h) = dead (rw (processing_key_differs w).2 h)
lrem-IsAnchored w id v hand (flight s h) = flight s h
lrem-IsAnchored w id v hand (done h) = done h
lrem-IsAnchored {phase} {j} w id v hand (listed u h k) =
    elim (Bool-cases (bytes_eq (processing_key u) (processing_key w))) [
      | inr other ↦ listed u (rw other h) k
      | inl same ↦ elim (Bool-cases (bytes_eq j id)) [
        | inl own ↦
            let hold : holds (phase u) j ≡ true =
              ap (λ x. holds (phase x) j) (same_worker u w same)
              ∙ ap (holds (phase w)) ((bytes_eq_iff j id).0 own)
              ∙ hand in
            cc
        | inr ne ↦
            listed u
              (rw (same, elem-remove_first_ne j id (v.lists (processing_key w)) ne)
                (ap (λ l. elem j (v.lists l)) (sym ((bytes_eq_iff _ _).0 same)) ∙ h))
              k
      ]
    ]

elem_cons-cases :
    (x y : Bytes) (ys : List Bytes) → elem x (y ∷ ys) ≡ true → (x ≡ y) ⊎ (elem x ys ≡ true)
unfolding elem
elem_cons-cases x y ys h = ground (arith, bytes_eq_iff x y)

-- The head of the ready list goes to the list of a worker that has no task in hand.
head_moved-IsAnchored :
    {phase : Bytes → Phase} {j : Bytes} (w x : Bytes) (xs : List Bytes) (v : View)
    → v.lists ready_key ≡ x ∷ xs
    → holds (phase w) j ≡ false
    → IsAnchored phase v j
    → IsAnchored phase (Effects.move_head ready_key (processing_key w) (x ∷ xs) v) j
head_moved-IsAnchored w x xs v e free (done h) = done h
head_moved-IsAnchored w x xs v e free (flight s h) = flight s h
head_moved-IsAnchored {j} w x xs v e free (dead h) = dead (
    elem-rpush j (processing_key w) x dead_key (record v { lists = update v.lists ready_key xs })
      (rw keys_differ.1 h))
head_moved-IsAnchored {j} w x xs v e free (listed u h k) =
    listed u
      (elem-rpush j (processing_key w) x (processing_key u)
        (record v { lists = update v.lists ready_key xs }) (rw (processing_key_differs u).1 h))
      k
head_moved-IsAnchored {j} w x xs v e free (ready h) = elim (elem_cons-cases j x xs (rw e at h)) [
  | inl same ↦ listed w (rw (bytes_eq_refl (processing_key w), same) (elem-snoc_self x _)) free
  | inr after ↦ ready (
      elem-rpush j (processing_key w) x ready_key (record v { lists = update v.lists ready_key xs })
        (rw (bytes_eq_refl ready_key) after))
]

pub blmove-IsAnchored :
    {phase : Bytes → Phase} {j : Bytes} (w : Bytes) (v : View)
    → holds (phase w) j ≡ false
    → IsAnchored phase v j
    → IsAnchored phase (Effects.blmove ready_key (processing_key w) v) j
blmove-IsAnchored {phase} {j} w v free a = split (v.lists ready_key) refl
  where
    split :
        (xs : List Bytes)
        → v.lists ready_key ≡ xs
        → IsAnchored phase (Effects.move_head ready_key (processing_key w) xs v) j
    split [] e = a
    split (x ∷ xs) e = head_moved-IsAnchored w x xs v e free a

target-IsAnchored :
    {phase : Bytes → Phase} {j : Bytes} (b : Bool) (v : View)
    → elem j (v.lists (if b then dead_key else ready_key)) ≡ true
    → IsAnchored phase v j
target-IsAnchored true v h = dead h
target-IsAnchored false v h = ready h

-- A retry takes the task out of flight and pushes it; every other task stays where it is.
pub retried-IsAnchored :
    {phase : Bytes → Phase} {j : Bytes} (max : ℕ) (id : Bytes) (k : ℕ) (v : View)
    → IsAnchored phase v j
    → IsAnchored phase (retried max id k v) j
retried-IsAnchored {phase} {j} max id k v (ready h) =
    ready (elem-rpush j (target_key max k) id ready_key v h)
retried-IsAnchored {phase} {j} max id k v (dead h) =
    dead (elem-rpush j (target_key max k) id dead_key v h)
retried-IsAnchored {phase} {j} max id k v (listed u h f) =
    listed u (elem-rpush j (target_key max k) id (processing_key u) v h) f
retried-IsAnchored max id k v (done h) = done h
retried-IsAnchored {phase} {j} max id k v (flight s h) = elim (Bool-cases (bytes_eq j id)) [
  | inl same ↦ target-IsAnchored (ltb max k) (retried max id k v) (
      ap (λ x. elem x ((retried max id k v).lists (target_key max k))) ((bytes_eq_iff j id).0 same)
      ∙ retried_lands max id k v)
  | inr other ↦
      flight s
        (rw (bytes_eq_refl inflight_key, score-remove_member j id (v.zsets inflight_key), other) h)
]

-- DEL of a processing list whose tasks have been pushed again.
pub del-IsAnchored :
    {phase : Bytes → Phase} {j : Bytes} (w : Bytes) (v : View)
    → (elem j (v.lists (processing_key w)) ≡ true → IsPushed v j)
    → IsAnchored phase v j
    → IsAnchored phase (Effects.del (processing_key w) v) j
del-IsAnchored w v pushed (ready h) = ready (rw (processing_key_differs w).0 h)
del-IsAnchored w v pushed (dead h) = dead (rw (processing_key_differs w).2 h)
del-IsAnchored w v pushed (flight s h) = flight s h
del-IsAnchored w v pushed (done h) = done h
del-IsAnchored {phase} {j} w v pushed (listed u h k) =
    elim (Bool-cases (bytes_eq (processing_key u) (processing_key w))) [
      | inr other ↦ listed u (rw other h) k
      | inl same ↦
          still (pushed (ap (λ l. elem j (v.lists l)) (sym ((bytes_eq_iff _ _).0 same)) ∙ h))
    ]
  where
    still : IsPushed v j → IsAnchored phase (Effects.del (processing_key w) v) j
    still (inl p) = ready (rw (processing_key_differs w).0 p)
    still (inr p) = dead (rw (processing_key_differs w).2 p)
