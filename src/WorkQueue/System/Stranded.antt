-- ===== src/WorkQueue/System/Stranded.antt =====
-- A claim that fails behind its BLMOVE leaves the task where neither script takes it up while the worker
-- lives.
use container_patterns.Common.{ℕ, ◌≡◌, refl, ap, ◌∙◌, true, false, none, some, List, ◌∷◌, Bytes}
use container_patterns.WorkQueue.Redis.{Redis}
use container_patterns.WorkQueue.Redis.Effects
use container_patterns.WorkQueue.Redis.Effects.{View, elem, score}
use container_patterns.WorkQueue.Redis.Effects.Laws.{bytes_eq_refl, elem-snoc_self}
use container_patterns.WorkQueue.Keys.{
  ready_key, inflight_key, processing_key, worker_key, processing_key_differs,
}
use container_patterns.WorkQueue.Coordinator.{
  replied, still_alive, requeue_expired, drain_dead_worker,
}
use container_patterns.WorkQueue.Coordinator.Retry.{requeue_expired_absent}
use container_patterns.WorkQueue.Framework.{claim_failed, ClaimCalls, claim}

module _ (R : Redis) where
  open R use {Db, view}

  moved_view :
      (w id : Bytes) (ids : List Bytes) (d : Db)
      → (view d).lists ready_key ≡ id ∷ ids
      → view (R.blmove ready_key (processing_key w) d)
        ≡ Effects.move_head ready_key (processing_key w) (id ∷ ids) (view d)
  moved_view w id ids d e =
      R.view-blmove ready_key (processing_key w) d
      ∙ ap (λ l. Effects.move_head ready_key (processing_key w) l (view d)) e

  claim_broken :
      (w : Bytes) (calls : ClaimCalls) (id : Bytes) (ids : List Bytes) (d : Db)
      → (view d).lists ready_key ≡ id ∷ ids
      → calls.blmove ≡ replied
      → calls.sismember_replies ≡ false
      → claim R w calls d ≡ (claim_failed, R.blmove ready_key (processing_key w) d)
  unfolding claim
  claim_broken w calls id ids d e came lost = rw (came, e) (simp lost)

  drain_alive :
      (max : ℕ) (w : Bytes) (d : Db)
      → (view d).strings (worker_key w) ≡ true
      → drain_dead_worker R max (processing_key w) w d ≡ (still_alive, d)
  unfolding drain_dead_worker
  drain_alive max w d alive = rw alive refl

  -- A worker whose liveness key is there moves a task to its own list, and then SISMEMBER fails: claim
  -- returns an error and leaves the task at the end of that list, out of the ready list. Both scripts of
  -- the reaper then leave the store as it is, the drain because the worker lives and the requeue because
  -- the task, which was not in flight, is not.
  pub claim_strands :
      (w : Bytes) (calls : ClaimCalls) (id : Bytes) (ids : List Bytes) (max : ℕ) (d : Db)
      → (view d).lists ready_key ≡ id ∷ ids
      → (view d).strings (worker_key w) ≡ true
      → score id ((view d).zsets inflight_key) ≡ none
      → calls.blmove ≡ replied
      → calls.sismember_replies ≡ false
      → let (reply, d') = claim R w calls d in
        (reply ≡ claim_failed)
        × ((view d').lists ready_key ≡ ids)
        × (elem id ((view d').lists (processing_key w)) ≡ true)
        × (drain_dead_worker R max (processing_key w) w d' ≡ (still_alive, d'))
        × (requeue_expired R max id d' ≡ (some 0, d'))
  claim_strands w calls id ids max d e alive out came lost =
      let after = R.blmove ready_key (processing_key w) d in
      let shown = moved_view w id ids d e in
      rw (claim_broken w calls id ids d e came lost) (
        refl,
        rw (shown, (processing_key_differs w).0, bytes_eq_refl ready_key) refl,
        rw (shown, bytes_eq_refl (processing_key w)) (elem-snoc_self id _),
        drain_alive max w after (ap (λ v. v.strings (worker_key w)) shown ∙ alive),
        requeue_expired_absent R max id after
            (ap (λ v. score id (v.zsets inflight_key)) shown ∙ out),
      )
