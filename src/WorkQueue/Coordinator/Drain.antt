-- ===== src/WorkQueue/Coordinator/Drain.antt =====
-- drainDeadWorkerScript: a dead worker's list is emptied into ready and dead, and no task is lost.
use mathlib.Core.Path.{subst}
use container_patterns.Common.{
  ℕ, ◌≡◌, refl, sym, ap, ◌∙◌, ◌⊎◌, inl, inr, Bool, true, false, List, [], ◌∷◌, arith, Bytes, ltb,
  bytes_eq, bytes_eq_iff, Bool-cases, if◌then◌else◌, length, trim_prefix,
}
use container_patterns.WorkQueue.Redis.{Redis}
use container_patterns.WorkQueue.Redis.Effects
use container_patterns.WorkQueue.Redis.Effects.{View, text, score, elem, update, range_by_score}
use container_patterns.WorkQueue.Keys.{
  ready_key, dead_key, processing_key, worker_key, processing_key_differs,
}
use container_patterns.WorkQueue.Tracking.{
  IsTracked, in_ready, in_dead, in_processing, in_flight, is_done, Counted, target_key, retried,
  elem-rpush, retried_lands,
}
use container_patterns.WorkQueue.Coordinator.{
  retry_task, drain_ids, drained, clear_list, drain_dead_worker,
}
use container_patterns.WorkQueue.Coordinator.Retry.{
  Keeps, Keeps-refl, Keeps-trans, Keeps-of_retried, retry_task_lem,
}

-- The task has been pushed again: it is ready or dead.
abbrev pub IsPushed : View → Bytes → Type 0
IsPushed v id = (elem id (v.lists ready_key) ≡ true) ⊎ (elem id (v.lists dead_key) ≡ true)

IsPushed-of_target :
    (b : Bool) (v : View) (id : Bytes)
    → elem id (v.lists (if b then dead_key else ready_key)) ≡ true
    → IsPushed v id
IsPushed-of_target true v id h = inr h
IsPushed-of_target false v id h = inl h

retried-IsPushed_self : (max : ℕ) (id : Bytes) (k : ℕ) (v : View) → IsPushed (retried max id k v) id
retried-IsPushed_self max id k v =
    IsPushed-of_target (ltb max k) (retried max id k v) id (retried_lands max id k v)

retried-IsPushed :
    (max : ℕ) (id : Bytes) (k : ℕ) (v : View) (j : Bytes)
    → IsPushed v j
    → IsPushed (retried max id k v) j
retried-IsPushed max id k v j (inl h) = inl (elem-rpush j (target_key max k) id ready_key v h)
retried-IsPushed max id k v j (inr h) = inr (elem-rpush j (target_key max k) id dead_key v h)

pub elem_cons-cases :
    (x y : Bytes) (ys : List Bytes) → elem x (y ∷ ys) ≡ true → (x ≡ y) ⊎ (elem x ys ≡ true)
unfolding elem
elem_cons-cases x y ys h = ground (arith, bytes_eq_iff x y)

-- Once its elements have been pushed again, a processing list may go: no task is lost by DEL.
del-IsTracked :
    (w : Bytes) (v : View) (j : Bytes)
    → (elem j (v.lists (processing_key w)) ≡ true → IsPushed v j)
    → IsTracked v j
    → IsTracked (Effects.del (processing_key w) v) j
del-IsTracked w v j pushed (in_ready h) = in_ready (rw (processing_key_differs w).0 h)
del-IsTracked w v j pushed (in_dead h) = in_dead (rw (processing_key_differs w).2 h)
del-IsTracked w v j pushed (in_flight s h) = in_flight s h
del-IsTracked w v j pushed (is_done h) = is_done h
del-IsTracked w v j pushed (in_processing u h) =
    elim (Bool-cases (bytes_eq (processing_key u) (processing_key w))) [
      | inr other ↦ in_processing u (rw other h)
      | inl same ↦
          still (pushed (ap (λ k. elem j (v.lists k)) (sym ((bytes_eq_iff _ _).0 same)) ∙ h))
    ]
  where
    still : IsPushed v j → IsTracked (Effects.del (processing_key w) v) j
    still (inl p) = in_ready (rw (processing_key_differs w).0 p)
    still (inr p) = in_dead (rw (processing_key_differs w).2 p)

pub worker_of_key : (w : Bytes) → trim_prefix (processing_key w) (processing_key []) ≡ w
unfolding trim_prefix processing_key
worker_of_key w = refl

module _ (R : Redis) where
  open R use {Db, view}

  -- What the loop of the drain script does to the ids that it is given.
  pub record Drains (ids : List Bytes) (d d' : Db) : Type 0 where
    pub keeps : Keeps R d d'
    pub pushed : (j : Bytes) → elem j ids ≡ true → IsPushed (view d') j
    pub stays : (j : Bytes) → IsPushed (view d) j → IsPushed (view d') j

  pub drain_ids-Drains :
      (max : ℕ) (ids : List Bytes) (d : Db)
      → Counted (view d)
      → ((drain_ids R max ids d).0 ≡ true) × Drains ids d (drain_ids R max ids d).1
  unfolding drain_ids
  drain_ids-Drains max [] d c = (
    refl,
    record { keeps = Keeps-refl R d; pushed = λ j h. absurd (none_in j h); stays = λ j h. h },
  )
    where
      none_in : (j : Bytes) → elem j [] ≡ true → ⊥
      none_in j h = unfold elem in cc
  drain_ids-Drains max (id ∷ ids) d c =
      let (k, e) = c id in
      let (viewed, code) = retry_task_lem R max id d e in
      let one = Keeps-of_retried R max id k viewed in
      let d' = (retry_task R max id d).1 in
      let (whole, more) = drain_ids-Drains max ids d' (one.counted c) in
      rw code (
        whole,
        record {
          keeps = Keeps-trans R one more.keeps;
          pushed = λ j h. elim (elem_cons-cases j id ids h) [
            | inl same ↦ more.stays j (
                subst (λ v. IsPushed v j) (sym viewed)
                  (subst (IsPushed (retried max id k (view d))) (sym same)
                    (retried-IsPushed_self max id k (view d))))
            | inr later ↦ more.pushed j later
          ];
          stays = λ j h.
              more.stays j
                (subst (λ v. IsPushed v j) (sym viewed) (retried-IsPushed max id k (view d) j h));
        },
      )

  -- The list that the drain starts from is not changed by the loop.
  pub drain_ids-lists :
      (max : ℕ) (ids : List Bytes) (w : Bytes) (d : Db)
      → Counted (view d)
      → (view (drain_ids R max ids d).1).lists (processing_key w)
        ≡ (view d).lists (processing_key w)
  unfolding drain_ids
  drain_ids-lists max [] w d c = refl
  drain_ids-lists max (id ∷ ids) w d c =
      let (k, e) = c id in
      let (viewed, code) = retry_task_lem R max id d e in
      let one = Keeps-of_retried R max id k viewed in
      let d' = (retry_task R max id d).1 in
      rw code (
        drain_ids-lists max ids w d' (one.counted c)
        ∙ ap (λ v. v.lists (processing_key w)) viewed
        ∙ untouched (ltb max k) _)
    where
      untouched :
          (b : Bool) (xs : List Bytes)
          → (if bytes_eq (processing_key w) (if b then dead_key else ready_key)
              then xs
              else (view d).lists (processing_key w))
            ≡ (view d).lists (processing_key w)
      untouched true xs = rw (processing_key_differs w).3 refl
      untouched false xs = rw (processing_key_differs w).1 refl

  -- The store after the whole script, from the store after its loop.
  del-Keeps :
      (w : Bytes) {d d' : Db}
      → Drains ((view d).lists (processing_key w)) d d'
      → (view d').lists (processing_key w) ≡ (view d).lists (processing_key w)
      → Keeps R d (R.del (processing_key w) d')
  del-Keeps w {d} {d'} drains same = record {
    tracked = λ j h. rw R.view-del (
        del-IsTracked w (view d') j (λ p. drains.pushed j (ap (elem j) (sym same) ∙ p))
          (drains.keeps.tracked j h));
    counted = λ c. rw R.view-del (drains.keeps.counted c);
  }

  pub drain_dead_worker-gone :
      (max : ℕ) (w : Bytes) (d : Db)
      → Counted (view d)
      → (view d).strings (worker_key w) ≡ false
      → (drain_dead_worker R max (processing_key w) w d) ≡ (
        drained (length ((view d).lists (processing_key w))),
        R.del (processing_key w) (drain_ids R max ((view d).lists (processing_key w)) d).1,
      )
  unfolding drain_dead_worker
  drain_dead_worker-gone max w d c gone =
      let ids = (view d).lists (processing_key w) in
      rw gone (cleared (drain_ids R max ids d) (drain_ids-Drains max ids d c).0)
    where
      cleared :
          (r : Bool × Db)
          → r.0 ≡ true
          → clear_list R (processing_key w) (length ((view d).lists (processing_key w))) r
            ≡ (drained (length ((view d).lists (processing_key w))), R.del (processing_key w) r.1)
      cleared (true, d') h = refl
      cleared (false, d') h = cc

  pub drain_dead_worker-Keeps :
      (max : ℕ) (w : Bytes) (d : Db)
      → Counted (view d)
      → Keeps R d (drain_dead_worker R max (processing_key w) w d).1
  drain_dead_worker-Keeps max w d c = elim (Bool-cases ((view d).strings (worker_key w))) [
    | inl alive ↦ unfold drain_dead_worker in rw alive (Keeps-refl R d)
    | inr gone ↦
        let ids = (view d).lists (processing_key w) in
        rw (drain_dead_worker-gone max w d c gone)
          (del-Keeps w (drain_ids-Drains max ids d c).1 (drain_ids-lists max ids w d c))
  ]
