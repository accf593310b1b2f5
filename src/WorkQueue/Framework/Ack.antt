-- ===== src/WorkQueue/Framework/Ack.antt =====
-- ack: what its transaction leaves in the store.
use container_patterns.Common.{
  ◌≡◌, refl, Bool, true, false, not, ◌&&◌, none, some, Bytes, if◌then◌else◌, codes,
}
use container_patterns.WorkQueue.Redis.{Redis}
use container_patterns.WorkQueue.Redis.Effects
use container_patterns.WorkQueue.Redis.Effects.{
  View, Value, text, number, elem, score, update, remove_first, place, remove_member,
}
use container_patterns.WorkQueue.Redis.Effects.Laws.{bytes_eq_refl, score-remove_member}
use container_patterns.WorkQueue.Keys.{
  done_key, inflight_key, settle_pending_key, task_key, processing_key, keys_differ,
}
use container_patterns.WorkQueue.Coordinator.{status_field}
use container_patterns.WorkQueue.Framework.{is_empty, ack_tx}

-- The store after a completed task: done, not in flight, off the worker's list, its order pending
-- settlement if it succeeded and is known, and the status of its hash set.
abbrev pub acknowledged : Bytes → Bytes → Bytes → Bool → View → View
acknowledged w id order_id success v =
    let v₁ = Effects.sadd done_key id v in
    let v₂ =
      if success && not (is_empty order_id)
      then Effects.sadd settle_pending_key order_id v₁
      else v₁ in
    let v₃ = Effects.lrem (processing_key w) id v₂ in
    let v₄ = Effects.zrem inflight_key id v₃ in
    Effects.hset (task_key id) status_field
      (text (if success then codes "done" else codes "failed")) v₄

module _ (R : Redis) where
  open R use {Db, view}

  view_pending :
      (b : Bool) (order_id : Bytes) (d : Db)
      → view (if b then R.sadd settle_pending_key order_id d else d)
        ≡ (if b then Effects.sadd settle_pending_key order_id (view d) else view d)
  view_pending true order_id d = R.view-sadd settle_pending_key order_id d
  view_pending false order_id d = refl

  -- ack's transaction is all of `acknowledged` and nothing else.
  pub ack_tx_lem :
      (w id order_id : Bytes) (success : Bool) (d : Db)
      → view (ack_tx R w id order_id success d) ≡ acknowledged w id order_id success (view d)
  unfolding ack_tx
  ack_tx_lem w id order_id success d =
      rw (R.view-hset, R.view-zrem, R.view-lrem, view_pending, R.view-sadd) refl

  pub acknowledged_done :
      (w id order_id : Bytes) (success : Bool) (v : View)
      → (acknowledged w id order_id success v).sets done_key id ≡ true
  acknowledged_done w id order_id success v = pending (success && not (is_empty order_id))
    where
      pending :
          (b : Bool)
          → (if b
                then Effects.sadd settle_pending_key order_id (Effects.sadd done_key id v)
                else Effects.sadd done_key id v).sets
              done_key id
            ≡ true
      pending true = rw (keys_differ.2, bytes_eq_refl done_key, bytes_eq_refl id) refl
      pending false = rw (bytes_eq_refl done_key, bytes_eq_refl id) refl

  -- After the transaction the task is done and no longer in flight, its status says how it ended, and
  -- the order is pending settlement if the task succeeded and the order is known.
  pub ack_tx_records :
      (w id order_id : Bytes) (success : Bool) (d : Db)
      → let v = view (ack_tx R w id order_id success d) in
        (v.sets done_key id ≡ true)
        × (score id (v.zsets inflight_key) ≡ none)
        × (v.hashes (task_key id) status_field
            ≡ some (text (if success then codes "done" else codes "failed")))
        × (v.sets settle_pending_key order_id ≡ (
            if success && not (is_empty order_id)
            then true
            else (view d).sets settle_pending_key order_id))
  ack_tx_records w id order_id success d = rw (ack_tx_lem w id order_id success d) (
    acknowledged_done w id order_id success (view d),
    rw (bytes_eq_refl inflight_key, score-remove_member, bytes_eq_refl id) refl,
    rw (bytes_eq_refl (task_key id), bytes_eq_refl status_field) refl,
    pending (success && not (is_empty order_id)),
  )
    where
      pending :
          (b : Bool)
          → (if b
                then Effects.sadd settle_pending_key order_id (Effects.sadd done_key id (view d))
                else Effects.sadd done_key id (view d)).sets
              settle_pending_key order_id
            ≡ (if b then true else (view d).sets settle_pending_key order_id)
      pending true = rw (bytes_eq_refl settle_pending_key, bytes_eq_refl order_id) refl
      pending false = rw keys_differ.3 refl
