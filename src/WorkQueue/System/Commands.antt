-- ===== src/WorkQueue/System/Commands.antt =====
-- What each command of the queue does to a task that is safe, and to the attempt counters.
use mathlib.Core.Path.{subst}
use container_patterns.Common.{
  ℕ, ◌+◌, ◌≡◌, refl, sym, ap, ◌∙◌, inl, inr, Bool, true, false, not, ◌&&◌, Option, none, List, [],
  ◌∷◌, Bytes, Bool-cases, if◌then◌else◌,
}
use container_patterns.WorkQueue.Redis.{Redis}
use container_patterns.WorkQueue.Redis.Effects
use container_patterns.WorkQueue.Redis.Effects.{
  View, Value, number, elem, score, update, remove_member, place, keep_greater,
}
use container_patterns.WorkQueue.Keys.{ready_key, inflight_key, processing_key, worker_key}
use container_patterns.WorkQueue.Tracking.{Counted, elem-rpush, retried, retried-Counted}
use container_patterns.WorkQueue.Coordinator.{
  Call, replied, request_lost, reply_lost, applied, enqueue_tx, retry_task, requeue_expired,
  drain_ids, drain_dead_worker,
}
use container_patterns.WorkQueue.Coordinator.Retry.{retry_task_lem, requeue_expired-cases}
use container_patterns.WorkQueue.Coordinator.Drain.{
  drain_ids-Drains, drain_ids-lists, drain_dead_worker-gone,
}
use container_patterns.WorkQueue.Coordinator.Enqueue.{enqueue_tx_view}
use container_patterns.WorkQueue.Framework.{is_empty, lrem_processing, ack_tx, beat}
use container_patterns.WorkQueue.Framework.Ack.{ack_tx_lem}
use container_patterns.WorkQueue.System.{Phase, Elsewhere}
use container_patterns.WorkQueue.System.Anchored.{
  holds, IsAnchored, Grows-IsAnchored, lrem-IsAnchored, blmove-IsAnchored, retried-IsAnchored,
  del-IsAnchored,
}
use container_patterns.WorkQueue.System.Views.{
  Grows-same, zadd-Grows, marked, acknowledged-IsAnchored, Counted-same, hset_status-Counted,
  marked-Counted, enqueued-Counted,
}

module _ (R : Redis) where
  open R use {Db, view}

  -- A call that may or may not have run.
  pub applied-lem : (P : Db → Type 0) (call : Call) {d d' : Db} → P d → P d' → P (applied call d d')
  applied-lem P replied p q = q
  applied-lem P request_lost p q = p
  applied-lem P reply_lost p q = q

  -- What every step keeps: the counters are numbers, and the task `j` is safe.
  pub record Sound (phase : Bytes → Phase) (j : Bytes) (d : Db) : Type 0 where
    pub counted : Counted (view d)
    pub anchored : IsAnchored phase (view d) j

  module _ {phase : Bytes → Phase} {j : Bytes} where
    -- A command whose effect on the view is known, and keeps both.
    Sound-of_view :
        {d d' : Db} (v : View)
        → view d' ≡ v
        → (Counted (view d) → Counted v)
        → (IsAnchored phase (view d) j → IsAnchored phase v j)
        → Sound phase j d
        → Sound phase j d'
    Sound-of_view {d} {d'} v e c a s = record {
      counted = subst Counted (sym e) (c s.counted);
      anchored = subst (λ u. IsAnchored phase u j) (sym e) (a s.anchored);
    }

    Sound-applied :
        (call : Call) {d d' : Db}
        → (Sound phase j d → Sound phase j d')
        → Sound phase j d
        → Sound phase j (applied call d d')
    Sound-applied call f s = applied-lem (Sound phase j) call s (f s)

    pub blmove-Sound :
        (w : Bytes) (d : Db)
        → holds (phase w) j ≡ false
        → Sound phase j d
        → Sound phase j (R.blmove ready_key (processing_key w) d)
    blmove-Sound w d free =
        Sound-of_view _ (R.view-blmove ready_key (processing_key w) d)
          (counted ((view d).lists ready_key)) (blmove-IsAnchored w (view d) free)
      where
        counted :
            (xs : List Bytes)
            → Counted (view d)
            → Counted (Effects.move_head ready_key (processing_key w) xs (view d))
        counted [] c = c
        counted (x ∷ xs) c = c

    pub lrem_processing-Sound :
        (w : Bytes) (call : Call) (id : Bytes) (d : Db)
        → holds (phase w) id ≡ true
        → Sound phase j d
        → Sound phase j (lrem_processing R w call id d)
    unfolding lrem_processing
    lrem_processing-Sound w call id d hand = Sound-applied call (
        Sound-of_view _ (R.view-lrem (processing_key w) id d) (λ c. c)
          (lrem-IsAnchored w id (view d) hand))

    pub zadd-Sound :
        (s : ℕ) (id : Bytes) (d : Db) → Sound phase j d → Sound phase j (R.zadd inflight_key s id d)
    zadd-Sound s id d =
        Sound-of_view _ (R.view-zadd inflight_key s id d) (λ c. c)
          (Grows-IsAnchored (zadd-Grows s id j (view d)))

    pub ack_tx-Sound :
        (w id order_id : Bytes) (success : Bool) (d : Db)
        → holds (phase w) id ≡ true
        → Sound phase j d
        → Sound phase j (ack_tx R w id order_id success d)
    ack_tx-Sound w id order_id success d hand =
        Sound-of_view _ (ack_tx_lem R w id order_id success d)
          (λ c.
            hset_status-Counted id _
              (marked (success && not (is_empty order_id)) order_id id (view d))
              (marked-Counted (success && not (is_empty order_id)) order_id id (view d) c))
          (acknowledged-IsAnchored w id order_id success (view d) hand)

    pub beat-Sound :
        (w : Bytes) (set_call zadd_call : Call) (visibility now : ℕ) (current : Bytes) (d : Db)
        → Sound phase j d
        → Sound phase j (beat R w set_call zadd_call visibility now current d)
    unfolding beat
    beat-Sound w set_call zadd_call visibility now current d s = beaten (is_empty current)
      where
        alive : Db
        alive = applied set_call d (R.set_key (worker_key w) d)

        lives : Sound phase j alive
        lives =
            Sound-applied set_call
              (Sound-of_view _ (R.view-set_key (worker_key w) d) (λ c. c)
                (Grows-IsAnchored (Grows-same j _ refl refl refl)))
              s

        beaten :
            (b : Bool)
            → Sound phase j (
                if b
                then alive
                else applied zadd_call alive
                    (R.zadd_gt inflight_key (now + visibility) current alive))
        beaten true = lives
        beaten false =
            Sound-applied zadd_call
              (Sound-of_view _ (R.view-zadd_gt inflight_key (now + visibility) current alive)
                (λ c. c) (Grows-IsAnchored (zadd-Grows _ current j (view alive))))
              lives

    pub enqueue_tx-Sound :
        (task_id order_id enqueued_at envelope : Bytes) (d : Db)
        → Sound phase j d
        → Sound phase j (enqueue_tx R task_id order_id enqueued_at envelope d)
    enqueue_tx-Sound task_id order_id enqueued_at envelope d =
        Sound-of_view _
          (enqueue_tx_view R (λ b. none) (λ e. none) task_id order_id enqueued_at envelope d)
          (enqueued-Counted task_id order_id enqueued_at envelope (view d))
          (Grows-IsAnchored (record {
            lists = λ k h. elem-rpush j ready_key task_id k (view d) h;
            flight = λ t h. (t, h);
            done = λ h. h;
          }))

    retry_task-Sound :
        (max : ℕ) (id : Bytes) (d : Db) → Sound phase j d → Sound phase j (retry_task R max id d).1
    retry_task-Sound max id d s =
        let (k, e) = s.counted id in
        Sound-of_view (retried max id k (view d)) (retry_task_lem R max id d e).0
          (retried-Counted max id k (view d)) (retried-IsAnchored max id k (view d)) s

    pub requeue_expired-Sound :
        (max : ℕ) (id : Bytes) (d : Db)
        → Sound phase j d
        → Sound phase j (requeue_expired R max id d).1
    requeue_expired-Sound max id d s = elim (requeue_expired-cases R max id d s.counted) [
      | inl (gone, e) ↦ subst (λ (r : Option ℕ × Db). Sound phase j r.1) (sym e) s
      | inr (k, e) ↦
          Sound-of_view (retried max id k (view d)) e (retried-Counted max id k (view d))
            (retried-IsAnchored max id k (view d)) s
    ]

    drain_ids-Sound :
        (max : ℕ) (ids : List Bytes) (d : Db)
        → Sound phase j d
        → Sound phase j (drain_ids R max ids d).1
    unfolding drain_ids
    drain_ids-Sound max [] d s = s
    drain_ids-Sound max (id ∷ ids) d s =
        let (k, e) = s.counted id in
        rw (retry_task_lem R max id d e).1
          (drain_ids-Sound max ids (retry_task R max id d).1 (retry_task-Sound max id d s))

    pub drain_dead_worker-Sound :
        (max : ℕ) (w : Bytes) (d : Db)
        → Sound phase j d
        → Sound phase j (drain_dead_worker R max (processing_key w) w d).1
    drain_dead_worker-Sound max w d s = elim (Bool-cases ((view d).strings (worker_key w))) [
      | inl alive ↦ unfold drain_dead_worker in rw alive s
      | inr gone ↦ rw (drain_dead_worker-gone R max w d s.counted gone) emptied
    ]
      where
        ids : List Bytes
        ids = (view d).lists (processing_key w)

        left : Db
        left = (drain_ids R max ids d).1

        emptied : Sound phase j (R.del (processing_key w) left)
        emptied =
            let drains = (drain_ids-Drains R max ids d s.counted).1 in
            let same = drain_ids-lists R max ids w d s.counted in
            Sound-of_view _ (R.view-del (processing_key w) left) (λ c. c)
              (del-IsAnchored w (view left) (λ p. drains.pushed j (ap (elem j) (sym same) ∙ p)))
              (drain_ids-Sound max ids d s)

    pub Elsewhere-Sound :
        (d d' : Db) → Elsewhere (view d) (view d') → Sound phase j d → Sound phase j d'
    Elsewhere-Sound d d' same s = record {
      counted = Counted-same (view d) (view d') same.attempts s.counted;
      anchored =
          Grows-IsAnchored
            (record {
              lists = λ k h. ap (elem j) (same.lists k) ∙ h;
              flight = λ t h. (t, ap (score j) (same.zsets inflight_key) ∙ h);
              done = λ h. same.done j ∙ h;
            })
            s.anchored;
    }
