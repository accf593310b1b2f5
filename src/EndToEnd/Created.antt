-- ===== src/EndToEnd/Created.antt =====
-- What handleEnqueue has done when order-api reads a task's id from its answer.
use container_patterns.Common.{
  ℕ, ◌≡◌, ◌≢◌, refl, sym, ◌∙◌, ◌⊎◌, inl, inr, ◌≤◌, true, Option, none, some, [], ◌∷◌, Bytes,
  Bool-cases, arith, leb, length,
}
use container_patterns.OrderApi.Orders.{no_answer, post_json, named, enqueue}
use container_patterns.WorkQueue.Redis.{Redis}
use container_patterns.WorkQueue.Coordinator.{
  Call, replied, request_lost, reply_lost, EnqueueReply, created, refused, enqueue_tx, envelope_of,
  submit, check_order, handle_enqueue,
}
use container_patterns.WorkQueue.Coordinator.Enqueue.{handle_enqueue_refuses}
use container_patterns.EndToEnd.{Json, read_body, respond, coordinate, post_enqueue, max_body_bytes}

module _ (R : Redis) (J : Json) where
  open R use {Db}

  -- The transaction ran and its reply came: what it stored, for which body.
  pub record Created (task enqueued_at body : Bytes) (d d' : Db) : Type 0 where
    pub order_id : Bytes
    pub envelope : Bytes
    pub names_order : J.order_id_of body ≡ some order_id
    pub is_order : order_id ≢ []
    pub is_envelope :
        J.marshal_envelope (envelope_of R J.order_id_of J.marshal_envelope task enqueued_at body)
        ≡ some envelope
    pub stored : d' ≡ enqueue_tx R task order_id enqueued_at envelope d

  -- An answer of the coordinator: created, or refused with a status that is no success.
  pub data Answered (task enqueued_at body : Bytes) (d : Db) : EnqueueReply × Db → Type 0 where
    accepts :
        {d' : Db}
        → Created task enqueued_at body d d'
        → Answered task enqueued_at body d (created task, d')
    refuses :
        {status : ℕ} {message : Bytes} {d' : Db}
        → 300 ≤ status
        → Answered task enqueued_at body d (refused status message, d')

  submit-Answered :
      (redis : Call) (task order at body : Bytes) (m : Option Bytes) (d : Db)
      → J.order_id_of body ≡ some order
      → order ≢ []
      → J.marshal_envelope (envelope_of R J.order_id_of J.marshal_envelope task at body) ≡ m
      → Answered task at body d (submit R J.order_id_of J.marshal_envelope redis task order at m d)
  submit-Answered redis task order at body none d o ne e = refuses (omega arith)
  submit-Answered replied task order at body (some envelope) d o ne e = accepts (record {
    order_id = order;
    envelope = envelope;
    names_order = o;
    is_order = ne;
    is_envelope = e;
    stored = refl;
  })
  submit-Answered request_lost task order at body (some envelope) d o ne e = refuses (omega arith)
  submit-Answered reply_lost task order at body (some envelope) d o ne e = refuses (omega arith)

  check_order-Answered :
      (redis : Call) (task at body : Bytes) (o : Option Bytes) (d : Db)
      → J.order_id_of body ≡ o
      → Answered task at body d
          (check_order R J.order_id_of J.marshal_envelope redis task at body o d)
  check_order-Answered redis task at body none d e = refuses (omega arith)
  check_order-Answered redis task at body (some []) d e = refuses (omega arith)
  check_order-Answered redis task at body (some (c ∷ cs)) d e =
      submit-Answered redis task (c ∷ cs) at body _ d e (λ h. cc) refl

  pub coordinate-Answered :
      (redis : Call) (task at body : Bytes) (d : Db)
      → Answered task at body d (coordinate R J redis task at body d)
  unfolding coordinate handle_enqueue
  coordinate-Answered redis task at body d = elim (Bool-cases (leb (length body) max_body_bytes)) [
    | inl small ↦
        rw (read_body, small) (check_order-Answered redis task at body (J.order_id_of body) d refl)
    | inr large ↦ rw (read_body, large) (refuses (omega arith))
  ]

  -- enqueue finds no task's id under a status that is no success.
  enqueue_refused :
      (status : ℕ) (message : Bytes)
      → 300 ≤ status
      → enqueue J.fulfillable J.task_id (respond R J (refused status message)) ≡ none
  unfolding enqueue respond post_json
  enqueue_refused status message h = ground arith

  enqueue_created :
      (task : Bytes)
      → enqueue J.fulfillable J.task_id (respond R J (created task))
        ≡ named J.fulfillable J.task_id (J.task_id (J.encode_created task))
  unfolding enqueue respond
  enqueue_created task = refl

  enqueue_unanswered : enqueue J.fulfillable J.task_id no_answer ≡ none
  unfolding enqueue
  enqueue_unanswered = refl

  -- What order-api may conclude from a task's id.
  pub record Enqueued (task at t : Bytes) (sent : Option Bytes) (d d' : Db) : Type 0 where
    pub body : Bytes
    pub was_sent : sent ≡ some body
    pub named_so : named J.fulfillable J.task_id (J.task_id (J.encode_created task)) ≡ some t
    pub was_created : Created task at body d d'

  accepted :
      (task at body t : Bytes) (d : Db) (p : EnqueueReply × Db)
      → Answered task at body d p
      → enqueue J.fulfillable J.task_id (respond R J p.0) ≡ some t
      → Enqueued task at t (some body) d p.1
  accepted task at body t d p (accepts c) e = record {
    body = body;
    was_sent = refl;
    named_so = sym (enqueue_created task) ∙ e;
    was_created = c;
  }
  accepted task at body t d p (refuses {status} {message} h) e =
      cc (enqueue_refused status message h)

  pub post_enqueue-Enqueued :
      (http redis : Call) (task at : Bytes) (sent : Option Bytes) (d : Db) (t : Bytes)
      → let (call, d') = post_enqueue R J http redis task at sent d in
        enqueue J.fulfillable J.task_id call ≡ some t → Enqueued task at t sent d d'
  unfolding post_enqueue
  post_enqueue-Enqueued http redis task at none d t e = cc enqueue_unanswered
  post_enqueue-Enqueued request_lost redis task at (some body) d t e = cc enqueue_unanswered
  post_enqueue-Enqueued reply_lost redis task at (some body) d t e = cc enqueue_unanswered
  post_enqueue-Enqueued replied redis task at (some body) d t e =
      accepted task at body t d (coordinate R J redis task at body d)
        (coordinate-Answered redis task at body d) e

  -- The other way: with no task's id and no reply that is lost, nothing has been stored.
  coordinate_kept :
      (redis : Call) (task at body : Bytes) (d : Db)
      → redis ≢ reply_lost
      → let (reply, d') = coordinate R J redis task at body d in (reply ≡ created task) ⊎ (d' ≡ d)
  unfolding coordinate
  coordinate_kept redis task at body d h =
      handle_enqueue_refuses R J.order_id_of J.marshal_envelope redis true (read_body body) task at
        d h

  pub post_enqueue_kept :
      (http redis : Call) (task at : Bytes) (sent : Option Bytes) (d : Db)
      → http ≢ reply_lost
      → redis ≢ reply_lost
      → let (call, d') = post_enqueue R J http redis task at sent d in
        (enqueue J.fulfillable J.task_id call
          ≡ named J.fulfillable J.task_id (J.task_id (J.encode_created task)))
        ⊎ (d' ≡ d)
  unfolding post_enqueue
  post_enqueue_kept http redis task at none d h k = inr refl
  post_enqueue_kept request_lost redis task at (some body) d h k = inr refl
  post_enqueue_kept reply_lost redis task at (some body) d h k = absurd (h refl)
  post_enqueue_kept replied redis task at (some body) d h k =
      elim (coordinate_kept redis task at body d k) [
        | inl is_created ↦ inl (rw is_created (enqueue_created task))
        | inr same ↦ inr same
      ]
