-- ===== src/EndToEnd/Refused.antt =====
-- An order that is not answered by 201 has left nothing behind, unless a reply was lost.
use container_patterns.Common.{
  ◌≡◌, ◌≢◌, refl, ap, ◌∙◌, ◌⊎◌, inl, inr, Option, none, some, [], ◌∷◌, Bytes,
}
use container_patterns.OrderApi.Stats.{Stats}
use container_patterns.OrderApi.Orders.{OrderRequest, order_response, named, enqueue}
use container_patterns.WorkQueue.Redis.{Redis}
use container_patterns.WorkQueue.Coordinator.{reply_lost}
use container_patterns.EndToEnd.{Json, Request, sends, post_enqueue, place_sent, place_order}
use container_patterns.EndToEnd.Sent.{outcome, serve_sent}
use container_patterns.EndToEnd.Created.{post_enqueue_kept}

module _ (R : Redis) (J : Json) where
  open R use {Db}

  pub named_self :
      (task : Bytes) → task ≢ [] → named J.fulfillable J.task_id (some task) ≡ some task
  named_self [] ne = absurd (ne refl)
  named_self (c ∷ cs) ne = refl

  -- If neither the reply of the coordinator nor the one of Redis is lost on the way, then an order is
  -- answered by 201 with its new task, or the store is what it was: be it the method, the request, its
  -- availability, its JSON, or a call that failed. The new task's id is not empty, and the
  -- coordinator's answer reads as what was written.
  pub place_order-refuses :
      (q : Request R J) (s : Stats) (d : Db)
      → J.task_id (J.encode_created q.task) ≡ some q.task
      → q.task ≢ []
      → q.http ≢ reply_lost
      → q.redis ≢ reply_lost
      → let (answer, d') = place_order R J q s d in
        ((raw : Bytes) × (answer.0 ≡ order_response 201 q.order q.task raw)) ⊎ (d' ≡ d)
  unfolding place_order
  place_order-refuses q s d j ne h k = split (sends R J q.method q.request q.available) refl
    where
      split :
          (o : Option OrderRequest)
          → sends R J q.method q.request q.available ≡ o
          → let (answer, d') = place_sent R J q o s d in
            ((raw : Bytes) × (answer.0 ≡ order_response 201 q.order q.task raw)) ⊎ (d' ≡ d)
      split none e = inr refl
      split (some r) e =
          let sent = J.marshal_order q.order r in
          let call = (post_enqueue R J q.http q.redis q.task q.enqueued_at sent d).0 in
          elim (post_enqueue_kept R J q.http q.redis q.task q.enqueued_at sent d h k) [
            | inr same ↦ inr same
            | inl found ↦
                let (raw, avail, shown) = serve_sent R J q r call s e in
                let read : enqueue J.fulfillable J.task_id call ≡ some q.task =
                  found ∙ ap (named J.fulfillable J.task_id) j ∙ named_self q.task ne in
                inl (raw, shown ∙ ap (outcome q.order raw) read)
          ]
