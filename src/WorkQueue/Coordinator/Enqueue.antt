-- ===== src/WorkQueue/Coordinator/Enqueue.antt =====
-- POST /enqueue: what is stored for an accepted order, and that nothing is for a refused one.
use container_patterns.Common.{
  ◌≡◌, ◌≢◌, refl, ◌⊎◌, inl, inr, Bool, true, false, Option, none, some, [], ◌∷◌, ◌++◌, Bytes, codes,
  bytes_eq,
}
use container_patterns.WorkQueue.Redis.{Redis}
use container_patterns.WorkQueue.Redis.Effects
use container_patterns.WorkQueue.Redis.Effects.{View, Value, text, number, update}
use container_patterns.WorkQueue.Redis.Effects.Laws.{bytes_eq_refl}
use container_patterns.WorkQueue.Keys.{ready_key, task_key, order_key}
use container_patterns.WorkQueue.Coordinator.{
  Call, replied, request_lost, reply_lost, TaskEnvelope, created, attempt_field, status_field,
  payload_field, enqueue_tx, envelope_of, submit, check_order, handle_enqueue,
}

-- The transaction's effect on the store.
abbrev pub enqueued : Bytes → Bytes → Bytes → Bytes → View → View
enqueued task_id order_id at envelope v =
    let task = task_key task_id in
    let v₁ = Effects.hset task payload_field (text envelope) v in
    let v₂ = Effects.hset task status_field (text (codes "ready")) v₁ in
    let v₃ = Effects.hset task attempt_field (number 1) v₂ in
    let v₄ = Effects.hset task (codes "enqueued_at") (text at) v₃ in
    let v₅ = Effects.hset (order_key order_id) (codes "finalized") (text (codes "0")) v₄ in
    Effects.rpush ready_key task_id v₅

-- The keys of a task and of an order are different.
pub task_not_order : (a b : Bytes) → bytes_eq (task_key a) (order_key b) ≡ false
unfolding task_key order_key bytes_eq
task_not_order a b = refl

fields_differ :
    (bytes_eq attempt_field status_field ≡ false)
    × (bytes_eq attempt_field (codes "enqueued_at") ≡ false)
    × (bytes_eq status_field attempt_field ≡ false)
    × (bytes_eq status_field (codes "enqueued_at") ≡ false)
    × (bytes_eq payload_field attempt_field ≡ false)
    × (bytes_eq payload_field status_field ≡ false)
    × (bytes_eq payload_field (codes "enqueued_at") ≡ false)
unfolding bytes_eq
fields_differ = (refl, refl, refl, refl, refl, refl, refl)

pub enqueued_fields :
    (a b at envelope : Bytes) (v : View)
    → let v' = enqueued a b at envelope v in
      (v'.lists ready_key ≡ v.lists ready_key ++ a ∷ [])
      × (v'.hashes (task_key a) payload_field ≡ some (text envelope))
      × (v'.hashes (task_key a) status_field ≡ some (text (codes "ready")))
      × (v'.hashes (task_key a) attempt_field ≡ some (number 1))
enqueued_fields a b at envelope v =
    let (f₀, f₁, f₂, f₃, f₄, f₅, f₆) = fields_differ in
    (
      rw (bytes_eq_refl ready_key) refl,
      simp (task_not_order a b, bytes_eq_refl, f₄, f₅, f₆),
      simp (task_not_order a b, bytes_eq_refl, f₂, f₃),
      simp (task_not_order a b, bytes_eq_refl, f₀, f₁),
    )

module _ (R : Redis) (order_id_of : Bytes → Option Bytes)
    (marshal : TaskEnvelope → Option Bytes) where
  open R use {Db, view}

  pub enqueue_tx_view :
      (task_id order_id at envelope : Bytes) (d : Db)
      → view (enqueue_tx R task_id order_id at envelope d)
        ≡ enqueued task_id order_id at envelope (view d)
  unfolding enqueue_tx
  enqueue_tx_view task_id order_id at envelope d =
      rw (R.view-rpush, R.view-hset, R.view-hset, R.view-hset, R.view-hset, R.view-hset) refl

  -- A POST whose body names an order, when the transaction's reply arrives: the answer is 201 with
  -- the new id, the id is the last of the ready list, and the task's hash has the envelope of that
  -- very body, the status ready and the attempt 1, so a worker that claims it finds them.
  pub handle_enqueue_stores :
      (body task_id at order_id envelope : Bytes) (d : Db)
      → order_id_of body ≡ some order_id
      → order_id ≢ []
      → marshal (envelope_of R order_id_of marshal task_id at body) ≡ some envelope
      → let (reply, d') =
          handle_enqueue R order_id_of marshal replied true (some body) task_id at d in
        let v = view d' in
        (reply ≡ created task_id)
        × (v.lists ready_key ≡ (view d).lists ready_key ++ task_id ∷ [])
        × (v.hashes (task_key task_id) payload_field ≡ some (text envelope))
        × (v.hashes (task_key task_id) status_field ≡ some (text (codes "ready")))
        × (v.hashes (task_key task_id) attempt_field ≡ some (number 1))
  unfolding handle_enqueue
  handle_enqueue_stores body task_id at [] envelope d e ne m = absurd (ne refl)
  handle_enqueue_stores body task_id at (c ∷ cs) envelope d e ne m =
      let d' = enqueue_tx R task_id (c ∷ cs) at envelope d in
      rw (e, handle_enqueue, m, enqueue_tx_view task_id (c ∷ cs) at envelope d)
        (refl, stored.0, stored.1, stored.2, stored.3)
    where
      stored :
          let v' = enqueued task_id (c ∷ cs) at envelope (view d) in
          (v'.lists ready_key ≡ (view d).lists ready_key ++ task_id ∷ [])
          × (v'.hashes (task_key task_id) payload_field ≡ some (text envelope))
          × (v'.hashes (task_key task_id) status_field ≡ some (text (codes "ready")))
          × (v'.hashes (task_key task_id) attempt_field ≡ some (number 1))
      stored = enqueued_fields task_id (c ∷ cs) at envelope (view d)

  submit_refuses :
      (call : Call) (task_id order_id at : Bytes) (m : Option Bytes) (d : Db)
      → call ≢ reply_lost
      → let (reply, d') = submit R order_id_of marshal call task_id order_id at m d in
        (reply ≡ created task_id) ⊎ (d' ≡ d)
  submit_refuses call task_id order_id at none d h = inr refl
  submit_refuses replied task_id order_id at (some envelope) d h = inl refl
  submit_refuses request_lost task_id order_id at (some envelope) d h = inr refl
  submit_refuses reply_lost task_id order_id at (some envelope) d h = absurd (h refl)

  check_order_refuses :
      (call : Call) (task_id at body : Bytes) (o : Option Bytes) (d : Db)
      → call ≢ reply_lost
      → let (reply, d') = check_order R order_id_of marshal call task_id at body o d in
        (reply ≡ created task_id) ⊎ (d' ≡ d)
  check_order_refuses call task_id at body none d h = inr refl
  check_order_refuses call task_id at body (some []) d h = inr refl
  check_order_refuses call task_id at body (some (c ∷ cs)) d h =
      submit_refuses call task_id (c ∷ cs) at
        (marshal (envelope_of R order_id_of marshal task_id at body)) d h

  -- Unless the reply of the transaction is lost on the way, a request that is not answered by 201
  -- has changed nothing: be it the method, the body, its JSON, its order id, the envelope, or a
  -- transaction that did not run.
  pub handle_enqueue_refuses :
      (call : Call) (is_post : Bool) (body : Option Bytes) (task_id at : Bytes) (d : Db)
      → call ≢ reply_lost
      → let (reply, d') = handle_enqueue R order_id_of marshal call is_post body task_id at d in
        (reply ≡ created task_id) ⊎ (d' ≡ d)
  unfolding handle_enqueue
  handle_enqueue_refuses call false body task_id at d h = inr refl
  handle_enqueue_refuses call true none task_id at d h = inr refl
  handle_enqueue_refuses call true (some body) task_id at d h =
      check_order_refuses call task_id at body (order_id_of body) d h
