-- ===== src/WorkQueue/Coordinator/Retry.antt =====
-- The two Lua scripts: what a retry does to the store, and that the reaper loses no task.
use mathlib.Core.Path.{subst}
use container_patterns.Common.{
  ℕ, ◌≡◌, refl, sym, ◌∙◌, ◌⊎◌, inl, inr, Option, none, some, Bytes, ltb, Bool-cases, if◌then◌else◌,
}
use container_patterns.WorkQueue.Redis.{Redis}
use container_patterns.WorkQueue.Redis.Effects
use container_patterns.WorkQueue.Redis.Effects.{View, text, score, elem}
use container_patterns.WorkQueue.Redis.Effects.Laws.{bytes_eq_refl, score-remove_member}
use container_patterns.WorkQueue.Keys.{inflight_key, task_key}
use container_patterns.WorkQueue.Tracking.{
  IsTracked, Counted, target_key, target_status, retried, retried-IsTracked, retried-Counted,
}
use container_patterns.WorkQueue.Coordinator.{
  attempt_field, status_field, incremented, push_again, retry_task, requeue_expired,
}

module _ (R : Redis) where
  open R use {Db, view}

  push_again_view :
      (max : ℕ) (id : Bytes) (k : ℕ) (d : Db)
      → (view (push_again R max id (some k) d).1
          ≡ Effects.hset (task_key id) status_field (text (target_status max k)) (
              Effects.rpush
                (target_key max k)
                id
                (Effects.hincrby (task_key id) attempt_field (view d))))
        × ((push_again R max id (some k) d).0 ≡ some (if ltb max k then 2 else 1))
  push_again_view max id k d = elim (Bool-cases (ltb max k)) [
    | inl over ↦ rw over (R.view-hset _ _ _ _ ∙ rw (R.view-rpush, R.view-hincrby) refl, refl)
    | inr under ↦ rw under (R.view-hset _ _ _ _ ∙ rw (R.view-rpush, R.view-hincrby) refl, refl)
  ]

  -- A retry of a task whose next attempt number is `k` takes it out of flight, counts it, appends it
  -- to the dead list if `k` is past the maximum and to the ready list if not, and sets its status.
  pub retry_task_lem :
      (max : ℕ) (id : Bytes) {k : ℕ} (d : Db)
      → incremented ((view d).hashes (task_key id) attempt_field) ≡ some k
      → (view (retry_task R max id d).1 ≡ retried max id k (view d))
        × ((retry_task R max id d).0 ≡ some (if ltb max k then 2 else 1))
  unfolding retry_task
  retry_task_lem max id {k} d e =
      let cleared = R.zrem inflight_key id d in
      let next : incremented ((view cleared).hashes (task_key id) attempt_field) ≡ some k =
        rw R.view-zrem e in
      let (viewed, code) = push_again_view max id k cleared in
      rw next (viewed ∙ rw R.view-zrem refl, code)

  -- The script on a task that is in flight: exactly a retry; it returns 2 if the task went to the
  -- dead list and 1 if it went to the ready list.
  pub requeue_expired_lem :
      (max : ℕ) (id : Bytes) {k s : ℕ} (d : Db)
      → score id ((view d).zsets inflight_key) ≡ some s
      → incremented ((view d).hashes (task_key id) attempt_field) ≡ some k
      → (view (requeue_expired R max id d).1 ≡ retried max id k (view d))
        × ((requeue_expired R max id d).0 ≡ some (if ltb max k then 2 else 1))
  unfolding requeue_expired
  requeue_expired_lem max id d e f = rw (e, requeue_expired) (retry_task_lem max id d f)

  pub requeue_expired_absent :
      (max : ℕ) (id : Bytes) (d : Db)
      → score id ((view d).zsets inflight_key) ≡ none
      → requeue_expired R max id d ≡ (some 0, d)
  unfolding requeue_expired
  requeue_expired_absent max id d e = rw (e, requeue_expired) refl

  pub requeue_expired-cases :
      (max : ℕ) (id : Bytes) (d : Db)
      → Counted (view d)
      → (((score id ((view d).zsets inflight_key) ≡ none)
            × (requeue_expired R max id d ≡ (some 0, d)))
          ⊎ ((k : ℕ) × (view (requeue_expired R max id d).1 ≡ retried max id k (view d))))
  requeue_expired-cases max id d c = split (score id ((view d).zsets inflight_key)) refl
    where
      split :
          (o : Option ℕ)
          → score id ((view d).zsets inflight_key) ≡ o
          → (((score id ((view d).zsets inflight_key) ≡ none)
                × (requeue_expired R max id d ≡ (some 0, d)))
              ⊎ ((k : ℕ) × (view (requeue_expired R max id d).1 ≡ retried max id k (view d))))
      split none e = inl (e, requeue_expired_absent max id d e)
      split (some s) e = let (k, f) = c id in inr (k, (requeue_expired_lem max id d e f).0)

  -- Where two reapers, or a reaper and a late worker, ask for the same task, it is requeued once:
  -- the script run again on the same task returns 0 and changes nothing.
  pub requeue_expired_once :
      (max : ℕ) (id : Bytes) (d : Db)
      → Counted (view d)
      → let d' = (requeue_expired R max id d).1 in requeue_expired R max id d' ≡ (some 0, d')
  requeue_expired_once max id d c = elim (requeue_expired-cases max id d c) [
    | inl (gone, e) ↦ rw e (requeue_expired_absent max id d gone)
    | inr (k, e) ↦ requeue_expired_absent max id (requeue_expired R max id d).1 (
        rw
          (
            e,
            bytes_eq_refl inflight_key,
            score-remove_member id id ((view d).zsets inflight_key),
            bytes_eq_refl id,
          )
          refl)
  ]

  -- What every step of the reaper keeps: no task is lost, and the counters stay numbers.
  pub record Keeps (d d' : Db) : Type 0 where
    pub tracked : (j : Bytes) → IsTracked (view d) j → IsTracked (view d') j
    pub counted : Counted (view d) → Counted (view d')

  pub Keeps-refl : (d : Db) → Keeps d d
  Keeps-refl d = record { tracked = λ j h. h; counted = λ c. c }

  pub Keeps-trans : {d e f : Db} → Keeps d e → Keeps e f → Keeps d f
  Keeps-trans p q = record {
    tracked = λ j h. q.tracked j (p.tracked j h);
    counted = λ c. q.counted (p.counted c);
  }

  pub Keeps-of_retried :
      (max : ℕ) (id : Bytes) (k : ℕ) {d d' : Db} → view d' ≡ retried max id k (view d) → Keeps d d'
  Keeps-of_retried max id k {d} {d'} e = record {
    tracked = λ j h. subst (λ v. IsTracked v j) (sym e) (retried-IsTracked max id k (view d) j h);
    counted = λ c. subst Counted (sym e) (retried-Counted max id k (view d) c);
  }
