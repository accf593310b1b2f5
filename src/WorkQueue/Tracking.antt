-- ===== src/WorkQueue/Tracking.antt =====
-- Where a task may be found, and what no command of the queue may lose: every place from which the
-- reaper or a worker takes a task up again, and the two places where its life ends.
use mathlib.Core.Path.{subst, fun_ext}
use container_patterns.Common.{
  ℕ, ◌+◌, ◌≡◌, refl, sym, ap, ◌∙◌, ◌⊎◌, inl, inr, Bool, true, false, Option, none, some, List, [],
  arith, Bytes, codes, ltb, bytes_eq, bytes_eq_iff, Bool-cases, if◌then◌else◌,
}
use container_patterns.WorkQueue.Redis.Effects
use container_patterns.WorkQueue.Redis.Effects.{View, Value, text, number, elem, score, update}
use container_patterns.WorkQueue.Redis.Effects.Laws.{
  bytes_eq_refl, elem-snoc_self, elem-snoc, elem-remove_first_ne, score-remove_member,
}
use container_patterns.WorkQueue.Keys.{
  ready_key, inflight_key, dead_key, done_key, task_key, processing_key, processing_key_differs,
}
use container_patterns.WorkQueue.Coordinator.{attempt_field, status_field, incremented}

-- The task is ready, dead, claimed by a worker, in flight or done.
pub data IsTracked (v : View) (id : Bytes) : Type 0 where
  in_ready : elem id (v.lists ready_key) ≡ true → IsTracked v id
  in_dead : elem id (v.lists dead_key) ≡ true → IsTracked v id
  in_processing : (w : Bytes) → elem id (v.lists (processing_key w)) ≡ true → IsTracked v id
  in_flight : (s : ℕ) → score id (v.zsets inflight_key) ≡ some s → IsTracked v id
  is_done : v.sets done_key id ≡ true → IsTracked v id

-- Every attempt counter is a number, or not there yet.
abbrev pub Counted : View → Type 0
Counted v = (id : Bytes) → (k : ℕ) × (incremented (v.hashes (task_key id) attempt_field) ≡ some k)

-- The list that an attempt number leads to, and the status with it.
abbrev pub target_key : ℕ → ℕ → Bytes
target_key max k = if ltb max k then dead_key else ready_key

abbrev pub target_status : ℕ → ℕ → Bytes
target_status max k = if ltb max k then codes "dead" else codes "ready"

-- The store after the task `id` has been taken out of flight, counted and pushed again.
abbrev pub retried : ℕ → Bytes → ℕ → View → View
retried max id k v = Effects.hset (task_key id) status_field (text (target_status max k)) (
    Effects.rpush (target_key max k) id
      (Effects.hincrby (task_key id) attempt_field (Effects.zrem inflight_key id v)))

-- A task that was retried is ready or dead.
pub retried_lands :
    (max : ℕ) (id : Bytes) (k : ℕ) (v : View)
    → elem id ((retried max id k v).lists (target_key max k)) ≡ true
retried_lands max id k v =
    rw (bytes_eq_refl (target_key max k)) (elem-snoc_self id (v.lists (target_key max k)))

-- A push at a list's end keeps what any list holds.
pub elem-rpush :
    (x key y j : Bytes) (v : View)
    → elem x (v.lists j) ≡ true
    → elem x ((Effects.rpush key y v).lists j) ≡ true
elem-rpush x key y j v h = elim (Bool-cases (bytes_eq j key)) [
  | inl same ↦ rw same (
      elem-snoc x y (v.lists key)
        (ap (λ k. elem x (v.lists k)) (sym ((bytes_eq_iff j key).0 same)) ∙ h))
  | inr other ↦ rw other h
]

IsTracked-of_target :
    (b : Bool) (v : View) (id : Bytes)
    → elem id (v.lists (if b then dead_key else ready_key)) ≡ true
    → IsTracked v id
IsTracked-of_target true v id h = in_dead h
IsTracked-of_target false v id h = in_ready h

-- A retry loses no task, neither its own nor another.
pub retried-IsTracked :
    (max : ℕ) (id : Bytes) (k : ℕ) (v : View) (j : Bytes)
    → IsTracked v j
    → IsTracked (retried max id k v) j
retried-IsTracked max id k v j (in_ready h) =
    in_ready (elem-rpush j (target_key max k) id ready_key v h)
retried-IsTracked max id k v j (in_dead h) =
    in_dead (elem-rpush j (target_key max k) id dead_key v h)
retried-IsTracked max id k v j (in_processing w h) =
    in_processing w (elem-rpush j (target_key max k) id (processing_key w) v h)
retried-IsTracked max id k v j (is_done h) = is_done h
retried-IsTracked max id k v j (in_flight s h) = elim (Bool-cases (bytes_eq j id)) [
  | inl same ↦ IsTracked-of_target (ltb max k) (retried max id k v) j (
      ap (λ x. elem x ((retried max id k v).lists (target_key max k))) ((bytes_eq_iff j id).0 same)
      ∙ retried_lands max id k v)
  | inr other ↦
      in_flight s
        (rw (bytes_eq_refl inflight_key, score-remove_member j id (v.zsets inflight_key), other) h)
]

increment-incremented :
    (o : Option Value) (k : ℕ)
    → incremented o ≡ some k
    → incremented (Effects.increment o) ≡ some (k + 1)
increment-incremented none k h = ground arith
increment-incremented (some (number n)) k h = ground arith
increment-incremented (some (text t)) k h = cc

pub attempt_not_status : bytes_eq attempt_field status_field ≡ false
unfolding bytes_eq
attempt_not_status = refl

-- The counters stay numbers.
pub retried-Counted :
    (max : ℕ) (id : Bytes) (k : ℕ) (v : View) → Counted v → Counted (retried max id k v)
retried-Counted max id k v c j = elim (Bool-cases (bytes_eq (task_key j) (task_key id))) [
  | inl same ↦
      let (n, e) = c id in
      (
        n + 1,
        rw (same, attempt_not_status, bytes_eq_refl (task_key id), bytes_eq_refl attempt_field)
            (increment-incremented (v.hashes (task_key id) attempt_field) n e),
      )
  | inr other ↦ let (n, e) = c j in (n, rw other e)
]

-- The task can be found without the list of the worker `w`.
abbrev pub IsHeld : Bytes → View → Bytes → Type 0
IsHeld w v j = IsTracked (Effects.del (processing_key w) v) j

elem-update :
    (x key k : Bytes) (l : Bytes → List Bytes)
    → elem x (update l key [] k) ≡ true
    → elem x (l k) ≡ true
elem-update x key k l h = elim (Bool-cases (bytes_eq k key)) [
  | inl same ↦ absurd (none_in (rw same at h))
  | inr other ↦ rw other at h
]
  where
    none_in : elem x [] ≡ true → ⊥
    none_in e = unfold elem in cc

pub IsHeld→IsTracked : (w : Bytes) (v : View) (j : Bytes) → IsHeld w v j → IsTracked v j
IsHeld→IsTracked w v j (in_ready h) =
    in_ready (elem-update j (processing_key w) ready_key v.lists h)
IsHeld→IsTracked w v j (in_dead h) = in_dead (elem-update j (processing_key w) dead_key v.lists h)
IsHeld→IsTracked w v j (in_processing u h) =
    in_processing u (elem-update j (processing_key w) (processing_key u) v.lists h)
IsHeld→IsTracked w v j (in_flight s h) = in_flight s h
IsHeld→IsTracked w v j (is_done h) = is_done h

-- An LREM on the worker's own list does not touch what is held elsewhere.
del-lrem :
    (w id : Bytes) (v : View)
    → Effects.del (processing_key w) (Effects.lrem (processing_key w) id v)
      ≡ Effects.del (processing_key w) v
del-lrem w id v = λ i. record v { lists = fun_ext twice i }
  where
    twice :
        (k : Bytes)
        → update (Effects.lrem (processing_key w) id v).lists (processing_key w) [] k
          ≡ update v.lists (processing_key w) [] k
    twice k = elim (Bool-cases (bytes_eq k (processing_key w))) [
      | inl same ↦ rw same refl
      | inr other ↦ rw other refl
    ]

pub lrem-IsHeld :
    (w id : Bytes) (v : View) (j : Bytes)
    → IsHeld w v j
    → IsHeld w (Effects.lrem (processing_key w) id v) j
lrem-IsHeld w id v j h = subst (λ u. IsTracked u j) (sym (del-lrem w id v)) h

-- An LREM of one task loses no other, and not that one either if it is held elsewhere.
pub lrem-IsTracked :
    (w id : Bytes) (v : View) (j : Bytes)
    → (bytes_eq j id ≡ false) ⊎ IsHeld w v j
    → IsTracked v j
    → IsTracked (Effects.lrem (processing_key w) id v) j
lrem-IsTracked w id v j (inr held) t = IsHeld→IsTracked w _ j (lrem-IsHeld w id v j held)
lrem-IsTracked w id v j (inl ne) (in_ready h) = in_ready (rw (processing_key_differs w).0 h)
lrem-IsTracked w id v j (inl ne) (in_dead h) = in_dead (rw (processing_key_differs w).2 h)
lrem-IsTracked w id v j (inl ne) (in_flight s h) = in_flight s h
lrem-IsTracked w id v j (inl ne) (is_done h) = is_done h
lrem-IsTracked w id v j (inl ne) (in_processing u h) =
    in_processing u (elim (Bool-cases (bytes_eq (processing_key u) (processing_key w))) [
      | inl same ↦
          rw (same, elem-remove_first_ne j id (v.lists (processing_key w)) ne)
            (ap (λ k. elem j (v.lists k)) (sym ((bytes_eq_iff _ _).0 same)) ∙ h)
      | inr other ↦ rw other h
    ])
