-- ===== src/WorkQueue/Framework/Races.antt =====
-- Two ways in which the worker and the store fall apart: a ZADD that fails before any bookkeeping,
-- and a heartbeat that comes after the acknowledgement.
use container_patterns.Common.{
  ℕ, ◌+◌, ◌<◌, ◌≡◌, ◌≢◌, refl, inl, inr, Bool, true, false, Option, some, [], ◌∷◌, Bytes, bytes_eq,
  Bool-cases, codes, lt→ltb,
}
use container_patterns.WorkQueue.Redis.{Redis}
use container_patterns.WorkQueue.Redis.Effects
use container_patterns.WorkQueue.Redis.Effects.{
  View, Value, text, elem, score, update, remove_first, keep_greater,
}
use container_patterns.WorkQueue.Redis.Effects.Laws.{bytes_eq_refl, score-zadd}
use container_patterns.WorkQueue.Keys.{
  dead_key, done_key, inflight_key, task_key, processing_key, worker_key, processing_key_differs,
}
use container_patterns.WorkQueue.Tracking.{
  IsTracked, in_ready, in_dead, in_processing, in_flight, is_done, IsHeld, retried_lands,
}
use container_patterns.WorkQueue.Coordinator.{
  replied, request_lost, status_field, attempt_field, incremented, requeue_expired,
}
use container_patterns.WorkQueue.Coordinator.Retry.{requeue_expired_lem}
use container_patterns.WorkQueue.Framework.{
  abandoned, TaskCalls, lrem_processing, beat, handle_task,
}

-- A task that only the worker's own list holds, once, is nowhere after LREM.
lrem_loses :
    (w id : Bytes) (v : View)
    → ¬ IsHeld w v id
    → elem id (remove_first id (v.lists (processing_key w))) ≡ false
    → ¬ IsTracked (Effects.lrem (processing_key w) id v) id
lrem_loses w id v alone once (in_ready h) =
    alone (in_ready (rw (processing_key_differs w).0 (rw (processing_key_differs w).0 at h)))
lrem_loses w id v alone once (in_dead h) =
    alone (in_dead (rw (processing_key_differs w).2 (rw (processing_key_differs w).2 at h)))
lrem_loses w id v alone once (in_flight s h) = alone (in_flight s h)
lrem_loses w id v alone once (is_done h) = alone (is_done h)
lrem_loses w id v alone once (in_processing u h) =
    elim (Bool-cases (bytes_eq (processing_key u) (processing_key w))) [
      | inl same ↦ cc (rw same at h)
      | inr other ↦ alone (in_processing u (rw other (rw other at h)))
    ]

module _ (R : Redis) where
  open R use {Db, view}

  -- Where the ZADD of handleTask fails without having run, and its LREM then works, a task that only
  -- this worker's list held, once, is lost: it is abandoned and found nowhere in the store.
  pub handle_task_loses :
      (order_id_of : Bytes → Option Bytes) (w : Bytes) (calls : TaskCalls) (visibility now : ℕ)
      (id : Bytes) (stage : Bytes → Option Bool) (others : Db → Db) (d : Db)
      → calls.zadd ≡ request_lost
      → calls.lrem ≡ replied
      → ¬ IsHeld w (view d) id
      → elem id (remove_first id ((view d).lists (processing_key w))) ≡ false
      → let (reply, d') = handle_task R order_id_of w calls visibility now id stage others d in
        (reply ≡ abandoned) × (¬ IsTracked (view d') id)
  unfolding handle_task lrem_processing
  handle_task_loses order_id_of w calls visibility now id stage others d lost gone alone once =
      rw (lost, gone) (refl, rw R.view-lrem (lrem_loses w id (view d) alone once))

  -- The view after a beat whose calls both ran.
  beat_view :
      (w : Bytes) (visibility now : ℕ) (c : ℕ) (cs : Bytes) (d : Db)
      → view (beat R w replied replied visibility now (c ∷ cs) d)
        ≡ Effects.zadd_gt inflight_key
            (now + visibility)
            (c ∷ cs)
            (Effects.set_key (worker_key w) (view d))
  unfolding beat
  beat_view w visibility now c cs d = rw (R.view-zadd_gt, R.view-set_key) refl

  -- A heartbeat that read the current task before the acknowledgement and sends its ZADD GT after it
  -- puts the finished task back in flight; if its attempts are used up, the reaper then moves it,
  -- done as it is, to the dead list and sets its status to dead.
  pub beat_after_ack :
      (w : Bytes) (visibility now max k : ℕ) (id : Bytes) (d : Db)
      → id ≢ []
      → (view d).sets done_key id ≡ true
      → incremented ((view d).hashes (task_key id) attempt_field) ≡ some k
      → max < k
      → let v = view (requeue_expired R max id (beat R w replied replied visibility now id d)).1 in
        (v.sets done_key id ≡ true)
        × (elem id (v.lists dead_key) ≡ true)
        × (v.hashes (task_key id) status_field ≡ some (text (codes "dead")))
  beat_after_ack w visibility now max k [] d ne done e over = absurd (ne refl)
  beat_after_ack w visibility now max k (c ∷ cs) d ne done e over =
      let id = c ∷ cs in
      let beaten = beat R w replied replied visibility now id d in
      let shown = beat_view w visibility now c cs d in
      let deadline = keep_greater (now + visibility) (score id ((view d).zsets inflight_key)) in
      let flying : score id ((view beaten).zsets inflight_key) ≡ some deadline =
        rw (shown, bytes_eq_refl inflight_key, score-zadd, bytes_eq_refl id) refl in
      let counted : incremented ((view beaten).hashes (task_key id) attempt_field) ≡ some k =
        rw shown e in
      let viewed = (requeue_expired_lem R max id beaten flying counted).0 in
      let lands = retried_lands max id k (view beaten) in
      rw viewed (
        rw shown done,
        rw (lt→ltb max k over) (rw (lt→ltb max k over) at lands),
        rw (bytes_eq_refl (task_key id), bytes_eq_refl status_field, lt→ltb max k over) refl,
      )
