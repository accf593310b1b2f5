-- ===== src/WorkQueue/Framework/Heartbeat.antt =====
-- The heartbeat against the reaper: a task whose deadline has just been moved is not requeued.
use container_patterns.Common.{
  ℕ, ◌+◌, ◌≡◌, ◌≢◌, refl, ◌∙◌, ◌≤◌, ◌<◌, Bool, true, false, Option, none, some, List, [], ◌∷◌,
  arith, Bytes, bytes_eq, Bool-cases, inl, inr, ltb,
}
use container_patterns.WorkQueue.Redis.{Redis}
use container_patterns.WorkQueue.Redis.Effects.{
  View, elem, score, place, remove_member, range_by_score, keep_greater,
}
use container_patterns.WorkQueue.Redis.Effects.Laws.{
  elem_cons, bytes_eq_refl, score-zadd, score-remove_member,
}
use container_patterns.WorkQueue.Keys.{inflight_key, task_key}
use container_patterns.WorkQueue.Coordinator.{
  Call, replied, request_lost, reply_lost, applied, incremented, attempt_field, push_again,
  retry_task, requeue_member, requeue_expired, requeue_all, reap_expired_inflight,
}
use container_patterns.WorkQueue.Framework.{beat}

range-remove_member :
    (t : ℕ) (id : Bytes) (z : List (Bytes × ℕ))
    → elem id (range_by_score t (remove_member id z)) ≡ false
unfolding elem range_by_score remove_member
range-remove_member t id [] = refl
range-remove_member t id ((n, s) ∷ z) = ground (arith, range-remove_member t id z)

range-place :
    (t s : ℕ) (id : Bytes) (z : List (Bytes × ℕ))
    → t < s
    → elem id (range_by_score t z) ≡ false
    → elem id (range_by_score t (place id s z)) ≡ false
unfolding elem range_by_score place
range-place t s id [] h e = ground arith
range-place t s id ((n, u) ∷ z) h e = ground (arith, range-place t s id z h)

-- The task's entry in the inflight set and its hash are as they were.
pub record Untouched (id : Bytes) (v v' : View) : Type 0 where
  pub deadline : score id (v'.zsets inflight_key) ≡ score id (v.zsets inflight_key)
  pub hash : (f : Bytes) → v'.hashes (task_key id) f ≡ v.hashes (task_key id) f

Untouched-refl : (id : Bytes) (v : View) → Untouched id v v
Untouched-refl id v = record { deadline = refl; hash = λ f. refl }

Untouched-trans :
    (id : Bytes) {u v w : View} → Untouched id u v → Untouched id v w → Untouched id u w
Untouched-trans id p q = record {
  deadline = q.deadline ∙ p.deadline;
  hash = λ f. q.hash f ∙ p.hash f;
}

task_keys : (a b : Bytes) → bytes_eq (task_key a) (task_key b) ≡ bytes_eq a b
unfolding task_key bytes_eq
task_keys a b = refl

module _ (R : Redis) where
  open R use {Db, view}

  push_again-Untouched :
      (max : ℕ) (x id : Bytes) (o : Option ℕ) (d : Db)
      → bytes_eq id x ≡ false
      → Untouched id (view d) (view (push_again R max x o d).1)
  push_again-Untouched max x id none d ne = Untouched-refl id (view d)
  push_again-Untouched max x id (some k) d ne = elim (Bool-cases (ltb max k)) [
    | inl over ↦
        rw (over, R.view-hset, R.view-rpush, R.view-hincrby)
          (record { deadline = refl; hash = λ f. rw (task_keys id x, ne) refl })
    | inr within ↦
        rw (within, R.view-hset, R.view-rpush, R.view-hincrby)
          (record { deadline = refl; hash = λ f. rw (task_keys id x, ne) refl })
  ]

  zrem-Untouched :
      (x id : Bytes) (d : Db)
      → bytes_eq id x ≡ false
      → Untouched id (view d) (view (R.zrem inflight_key x d))
  zrem-Untouched x id d ne = record {
    deadline = rw (R.view-zrem, bytes_eq_refl inflight_key, score-remove_member, ne) refl;
    hash = λ f. rw R.view-zrem refl;
  }

  requeue_expired-Untouched :
      (max : ℕ) (x id : Bytes) (d : Db)
      → bytes_eq id x ≡ false
      → Untouched id (view d) (view (requeue_expired R max x d).1)
  unfolding requeue_expired retry_task
  requeue_expired-Untouched max x id d ne = split (score x ((view d).zsets inflight_key))
    where
      split : (o : Option ℕ) → Untouched id (view d) (view (requeue_member R max x o d).1)
      split none = Untouched-refl id (view d)
      split (some s) = Untouched-trans id (zrem-Untouched x id d ne) (
          push_again-Untouched max x id
            (incremented ((view (R.zrem inflight_key x d)).hashes (task_key x) attempt_field))
            (R.zrem inflight_key x d) ne)

  applied-Untouched :
      (call : Call) (id : Bytes) {d d' : Db}
      → Untouched id (view d) (view d')
      → Untouched id (view d) (view (applied call d d'))
  applied-Untouched replied id u = u
  applied-Untouched request_lost id {d} u = Untouched-refl id (view d)
  applied-Untouched reply_lost id u = u

  requeue_all-Untouched :
      (calls : Bytes → Call) (max : ℕ) (ids : List Bytes) (id : Bytes) (d : Db)
      → elem id ids ≡ false
      → Untouched id (view d) (view (requeue_all R calls max ids d))
  unfolding requeue_all
  requeue_all-Untouched calls max [] id d h = Untouched-refl id (view d)
  requeue_all-Untouched calls max (x ∷ xs) id d h =
      let (ne, out) = elem_cons id x xs h in
      Untouched-trans id (applied-Untouched (calls x) id (requeue_expired-Untouched max x id d ne))
        (requeue_all-Untouched calls max xs id _ out)

  -- What a beat leaves of the inflight set.
  beat_zset :
      (w : Bytes) (set_call : Call) (visibility now c : ℕ) (cs : Bytes) (d : Db)
      → let id = c ∷ cs in
        let z = (view d).zsets inflight_key in
        (view (beat R w set_call replied visibility now id d)).zsets inflight_key
        ≡ place id (keep_greater (now + visibility) (score id z)) (remove_member id z)
  unfolding beat
  beat_zset w replied visibility now c cs d =
      rw (R.view-zadd_gt, R.view-set_key, bytes_eq_refl inflight_key) refl
  beat_zset w reply_lost visibility now c cs d =
      rw (R.view-zadd_gt, R.view-set_key, bytes_eq_refl inflight_key) refl
  beat_zset w request_lost visibility now c cs d =
      rw (R.view-zadd_gt, bytes_eq_refl inflight_key) refl

  keep_greater-lem : (s : ℕ) (o : Option ℕ) → s ≤ keep_greater s o
  keep_greater-lem s none = omega arith
  keep_greater-lem s (some t) = ground arith

  -- A heartbeat protects its task: after a beat whose ZADD ran, a pass of the reaper over the expired
  -- tasks at any second before the new deadline leaves the task in flight with its deadline, and its
  -- status, attempt and payload as they are, whatever it does to other tasks and whichever of its
  -- calls fail. The deadline is no earlier than the beat's.
  pub beat_protects :
      (w : Bytes) (set_call : Call) (visibility now : ℕ) (id : Bytes) (d : Db) (listed : Bool)
      (calls : Bytes → Call) (max later : ℕ)
      → id ≢ []
      → later < now + visibility
      → let beaten = beat R w set_call replied visibility now id d in
        Untouched id (view beaten) (view (reap_expired_inflight R listed calls max later beaten))
        × (s : ℕ) × (score id ((view beaten).zsets inflight_key) ≡ some s)
        × (now + visibility ≤ s)
  unfolding reap_expired_inflight
  beat_protects w set_call visibility now [] d listed calls max later ne h = absurd (ne refl)
  beat_protects w set_call visibility now (c ∷ cs) d listed calls max later ne h =
      let id = c ∷ cs in
      let z = (view d).zsets inflight_key in
      let s = keep_greater (now + visibility) (score id z) in
      let least : now + visibility ≤ s = keep_greater-lem (now + visibility) (score id z) in
      let beaten = beat R w set_call replied visibility now id d in
      let shown = beat_zset w set_call visibility now c cs d in
      let kept : elem id (range_by_score later ((view beaten).zsets inflight_key)) ≡ false =
        rw shown (
          range-place later s id (remove_member id z) (omega arith)
            (range-remove_member later id z)) in
      (pass listed beaten kept, s, rw (shown, score-zadd, bytes_eq_refl id) refl, least)
    where
      pass :
          (b : Bool) (e : Db)
          → elem (c ∷ cs) (range_by_score later ((view e).zsets inflight_key)) ≡ false
          → Untouched (c ∷ cs) (view e) (view (reap_expired_inflight R b calls max later e))
      pass false e k = Untouched-refl (c ∷ cs) (view e)
      pass true e k = requeue_all-Untouched calls max _ (c ∷ cs) e k
