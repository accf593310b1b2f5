-- ===== src/EndToEnd/Batch.antt =====
-- Any number of orders, one after the other: what the responses say against what the queue holds.
use container_patterns.Common.{
  ◌≡◌, ◌≢◌, refl, sym, ap, ◌∙◌, ◌⊎◌, inl, inr, Option, none, some, List, [], ◌∷◌, ◌++◌, append-nil,
  append_assoc, arith, Bytes, All, ◌==◌, if◌then◌else◌,
}
use container_patterns.OrderApi.Stats.{Stats}
use container_patterns.OrderApi.Orders.{
  OrderRequest, PostCall, no_answer, Response, failure, order_response, status_of, named, enqueue,
}
use container_patterns.WorkQueue.Redis.{Redis}
use container_patterns.WorkQueue.Keys.{ready_key}
use container_patterns.WorkQueue.Coordinator.{reply_lost}
use container_patterns.EndToEnd.{Json, Request, serve, sends, post_enqueue, place_sent, place_order}
use container_patterns.EndToEnd.Sent.{IsRefusal, outcome, serve_sent, serve_kept}
use container_patterns.EndToEnd.Created.{post_enqueue_kept}
use container_patterns.EndToEnd.Placed.{
  Stored, Stored-fields, created-Stored, created-named, named-some,
}
use container_patterns.EndToEnd.Refused.{named_self}

-- The task of a response, if it is one of 201.
abbrev pub placed_task : Response → List Bytes
placed_task (failure status message) = []
placed_task (order_response status order task availability) =
    if status == 201 then task ∷ [] else []

abbrev pub placed_tasks : List Response → List Bytes
placed_tasks [] = []
placed_tasks (r ∷ rs) = placed_task r ++ placed_tasks rs

placed_task-refused : (r : Response) → IsRefusal r → placed_task r ≡ []
placed_task-refused (failure status message) h = refl
placed_task-refused (order_response status order task availability) h = ground arith

module _ (R : Redis) (J : Json) where
  open R use {Db, view}

  -- One request after another, each with its response.
  unfoldable pub place_all : List (Request R J) → Stats → Db → List Response × (Stats × Db)
  unfolding place_order
  place_all [] s d = ([], (s, d))
  place_all (q ∷ qs) s d =
      let ((r, s'), d') = place_order R J q s d in
      let (rs, last) = place_all qs s' d' in (r ∷ rs, last)

  -- No reply is lost, and the coordinator's answer reads as what was written.
  pub record IsHeard (q : Request R J) : Type 0 where
    pub reads : J.task_id (J.encode_created q.task) ≡ some q.task
    pub has_task : q.task ≢ []
    pub http : q.http ≢ reply_lost
    pub redis : q.redis ≢ reply_lost

  -- Either answered by 201 and stored, or answered otherwise and not.
  Answered : Request R J → Db → (Response × Stats) × Db → Type 0
  Answered q d (answer, d') =
      ((raw : Bytes) × (answer.0 ≡ order_response 201 q.order q.task raw) × Stored R J q d d')
      ⊎ (IsRefusal answer.0 × (d' ≡ d))

  place_sent-Answered :
      (q : Request R J) (r : OrderRequest) (s : Stats) (d : Db)
      → IsHeard q
      → sends R J q.method q.request q.available ≡ some r
      → Answered q d (place_sent R J q (some r) s d)
  unfolding Answered
  place_sent-Answered q r s d h e = split (enqueue J.fulfillable J.task_id posted.0) refl
    where
      posted : PostCall × Db
      posted = post_enqueue R J q.http q.redis q.task q.enqueued_at (J.marshal_order q.order r) d

      kept :
          (enqueue J.fulfillable J.task_id posted.0
            ≡ named J.fulfillable J.task_id (J.task_id (J.encode_created q.task)))
          ⊎ (posted.1 ≡ d)
      kept =
          post_enqueue_kept R J q.http q.redis q.task q.enqueued_at (J.marshal_order q.order r) d
            h.http h.redis

      read : named J.fulfillable J.task_id (J.task_id (J.encode_created q.task)) ≡ some q.task
      read = ap (named J.fulfillable J.task_id) h.reads ∙ named_self R J q.task h.has_task

      split :
          (o : Option Bytes)
          → enqueue J.fulfillable J.task_id posted.0 ≡ o
          → ((raw : Bytes) × ((serve R J q posted.0 s).0 ≡ order_response 201 q.order q.task raw)
              × Stored R J q d posted.1)
            ⊎ (IsRefusal (serve R J q posted.0 s).0 × (posted.1 ≡ d))
      split none f =
          let (raw, _, shown) = serve_sent R J q r posted.0 s e in
          elim kept [
            | inl found ↦ absurd (cc (sym f ∙ found ∙ read))
            | inr same ↦ inr (
              λ k. omega (arith, sym (ap status_of (shown ∙ ap (outcome q.order raw) f)) ∙ k),
              same,
            )
          ]
      split (some t) f =
          let (raw, _, shown) = serve_sent R J q r posted.0 s e in
          let same : t ≡ q.task =
            named-some R J q.task t
              (ap (named J.fulfillable J.task_id) (sym h.reads) ∙ created-named R J q r d f) in
          inl
            (raw, shown ∙ ap (outcome q.order raw) (f ∙ ap some same), created-Stored R J q r d e f)

  place_order-Answered :
      (q : Request R J) (s : Stats) (d : Db) → IsHeard q → Answered q d (place_order R J q s d)
  unfolding place_order Answered
  place_order-Answered q s d h = split (sends R J q.method q.request q.available) refl
    where
      split :
          (o : Option OrderRequest)
          → sends R J q.method q.request q.available ≡ o
          → Answered q d (place_sent R J q o s d)
      split none e = inr (serve_kept R J q no_answer s e, refl)
      split (some r) e = place_sent-Answered q r s d h e

  -- One request: the ready list grows by what its response says.
  place_order-ready :
      (q : Request R J) (s : Stats) (d : Db)
      → IsHeard q
      → let (answer, d') = place_order R J q s d in
        (view d').lists ready_key ≡ (view d).lists ready_key ++ placed_task answer.0
  unfolding Answered
  place_order-ready q s d h = elim (place_order-Answered q s d h) [
    | inl (raw, said, stored) ↦
        (Stored-fields R J stored).0
        ∙ ap (λ r. (view d).lists ready_key ++ placed_task r) (sym said)
    | inr (refused, same) ↦
        ap (λ x. (view x).lists ready_key) same
        ∙ sym (append-nil ((view d).lists ready_key))
        ∙ ap (λ l. (view d).lists ready_key ++ l)
            (sym (placed_task-refused (place_order R J q s d).0.0 refused))
  ]

  -- However many requests come one after the other, and however their calls end, if no reply is lost: the
  -- ready list has grown by exactly the tasks of the responses under 201, in their order. So an order that
  -- is answered by 201 is queued once, and one that is not is not queued.
  pub place_all-ready :
      (qs : List (Request R J)) (s : Stats) (d : Db)
      → All IsHeard qs
      → let (rs, last) = place_all qs s d in
        (view last.1).lists ready_key ≡ (view d).lists ready_key ++ placed_tasks rs
  unfolding place_all
  place_all-ready [] s d h = sym (append-nil ((view d).lists ready_key))
  place_all-ready (q ∷ qs) s d (h, hs) =
      let (answer, d') = place_order R J q s d in
      place_all-ready qs answer.1 d' hs
      ∙ ap (λ l. l ++ placed_tasks (place_all qs answer.1 d').0) (place_order-ready q s d h)
      ∙ append_assoc ((view d).lists ready_key) (placed_task answer.0)
          (placed_tasks (place_all qs answer.1 d').0)
