-- ===== src/WorkQueue/System/Safety.antt =====
-- No interleaving of the queue's processes loses a task.
use container_patterns.Common.{
  ℕ, ◌≡◌, refl, ap, ◌∙◌, inl, inr, true, false, Bytes, bytes_eq, bytes_eq_iff,
}
use container_patterns.WorkQueue.Redis.{Redis}
use container_patterns.WorkQueue.Redis.Effects.{update}
use container_patterns.WorkQueue.Redis.Effects.Laws.{bytes_eq_refl, score-zadd}
use container_patterns.WorkQueue.Keys.{inflight_key, done_key}
use container_patterns.WorkQueue.Tracking.{IsTracked, Counted}
use container_patterns.WorkQueue.Coordinator.{Call, applied}
use container_patterns.WorkQueue.System.{
  Phase, idle, moved, dropping, claimed, started, System, Step, blmove_replies, blmove_fails,
  found_done, found_new, sismember_fails, drops, zadd_runs, gives_up, acks, crashes, beats,
  enqueues, requeues, drains, elsewhere, Reach, here, later,
}
use container_patterns.WorkQueue.System.Anchored.{
  holds, IsAnchored, IsAnchored→IsTracked, IsKept, update-IsAnchored,
}
use container_patterns.WorkQueue.System.Commands.{
  Sound, applied-lem, blmove-Sound, lrem_processing-Sound, zadd-Sound, ack_tx-Sound, beat-Sound,
  enqueue_tx-Sound, requeue_expired-Sound, drain_dead_worker-Sound, Elsewhere-Sound,
}

module _ (R : Redis) where
  open R use {Db, view}

  -- A worker's phase changes, and the store does not.
  phase-Sound :
      {phase : Bytes → Phase} {j : Bytes} {d : Db} (w : Bytes) (p : Phase)
      → (holds p j ≡ true → IsKept (view d) j)
      → Sound R phase j d
      → Sound R (update phase w p) j d
  phase-Sound w p kept s = record {
    counted = s.counted;
    anchored = update-IsAnchored w p kept s.anchored;
  }

  free-Sound :
      {phase : Bytes → Phase} {j : Bytes} {d : Db} (w : Bytes) (p : Phase)
      → holds p j ≡ false
      → Sound R phase j d
      → Sound R (update phase w p) j d
  free-Sound w p free = phase-Sound w p (λ h. cc)

  either-Sound :
      {phase : Bytes → Phase} {j : Bytes} (call : Call) {d d' : Db}
      → Sound R phase j d
      → Sound R phase j d'
      → Sound R phase j (applied call d d')
  either-Sound {phase} {j} call s t = applied-lem R (Sound R phase j) call s t

  zadd-IsKept :
      (id j : Bytes) (deadline : ℕ) (d : Db)
      → bytes_eq j id ≡ true
      → IsKept (view (R.zadd inflight_key deadline id d)) j
  zadd-IsKept id j deadline d same =
      inr (deadline, rw (R.view-zadd, bytes_eq_refl inflight_key, score-zadd, same) refl)

  -- The worker that has a task in hand may take it off its list.
  in_hand : {p : Phase} (id : Bytes) (q : Phase) → q ≡ p → holds p id ≡ true → holds q id ≡ true
  in_hand id q e h = ap (λ x. holds x id) e ∙ h

  pub Step-Sound :
      {s t : System R} (j : Bytes) → Step R s t → Sound R s.phase j s.db → Sound R t.phase j t.db
  Step-Sound {s} j (blmove_replies w id ids e f) h =
      free-Sound w (moved id) refl (blmove-Sound R w s.db (ap (λ p. holds p j) e) h)
  Step-Sound {s} j (blmove_fails w call e) h =
      either-Sound call h (blmove-Sound R w s.db (ap (λ p. holds p j) e) h)
  Step-Sound {s} j (found_done w id e d) h =
      phase-Sound w (dropping id)
        (λ k. inl (ap ((view s.db).sets done_key) ((bytes_eq_iff j id).0 k) ∙ d)) h
  Step-Sound j (found_new w id e d) h = free-Sound w (claimed id) refl h
  Step-Sound j (sismember_fails w id e) h = free-Sound w idle refl h
  Step-Sound {s} j (drops w id call e) h =
      free-Sound w idle refl
        (lrem_processing-Sound R w call id s.db (in_hand id (s.phase w) e (bytes_eq_refl id)) h)
  Step-Sound {s} j (zadd_runs w id deadline e) h =
      phase-Sound w (started id) (zadd-IsKept id j deadline s.db) (zadd-Sound R deadline id s.db h)
  Step-Sound {s} j (gives_up w id call e) h =
      free-Sound w idle refl
        (lrem_processing-Sound R w call id s.db (in_hand id (s.phase w) e (bytes_eq_refl id)) h)
  Step-Sound {s} j (acks w id order_id success call e) h = free-Sound w idle refl (
      either-Sound call h
        (ack_tx-Sound R w id order_id success s.db (in_hand id (s.phase w) e (bytes_eq_refl id)) h))
  Step-Sound j (crashes w) h = free-Sound w idle refl h
  Step-Sound {s} j (beats w set_call zadd_call visibility now current) h =
      beat-Sound R w set_call zadd_call visibility now current s.db h
  Step-Sound {s} j (enqueues call task_id order_id enqueued_at envelope) h =
      either-Sound call h (enqueue_tx-Sound R task_id order_id enqueued_at envelope s.db h)
  Step-Sound {s} j (requeues call max id) h =
      either-Sound call h (requeue_expired-Sound R max id s.db h)
  Step-Sound {s} j (drains call max w) h =
      either-Sound call h (drain_dead_worker-Sound R max w s.db h)
  Step-Sound {s} j (elsewhere d same) h = Elsewhere-Sound R s.db d same h

  Reach-Sound :
      {s t : System R} (j : Bytes) → Reach R s t → Sound R s.phase j s.db → Sound R t.phase j t.db
  Reach-Sound j here h = h
  Reach-Sound j (later r st) h = Step-Sound j st (Reach-Sound j r h)

  -- However the calls of all workers, of the handlers and of the reaper interleave, and whichever of them
  -- fail, workers crash and keys expire: a task that is safe can be found in the store ever after. Safe
  -- is a task that is ready, dead, in flight, done or in the list of a worker that is not about to
  -- remove it, while the attempt counters are numbers; both stay so. Only a ZADD of handleTask is taken
  -- not to fail before it runs.
  pub Reach-IsTracked :
      {s t : System R} (j : Bytes)
      → Reach R s t
      → Counted (view s.db)
      → IsAnchored s.phase (view s.db) j
      → IsTracked (view t.db) j × IsAnchored t.phase (view t.db) j × Counted (view t.db)
  Reach-IsTracked j r c a =
      let h = Reach-Sound j r (record { counted = c; anchored = a }) in
      (IsAnchored→IsTracked h.anchored, h.anchored, h.counted)
