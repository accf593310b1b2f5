-- ===== src/EndToEnd/Placed.antt =====
-- An order that is answered by 201: what the store has of it, and that it is never lost.
use mathlib.Core.Path.{subst}
use container_patterns.Common.{
  ◌≡◌, refl, sym, ap, ◌∙◌, true, Option, none, some, [], ◌∷◌, ◌++◌, Bytes, codes,
}
use container_patterns.OrderApi.Stats.{Stats}
use container_patterns.OrderApi.Orders.{
  OrderRequest, no_answer, order_response, status_of, named, check_availability, enqueue,
}
use container_patterns.WorkQueue.Redis.{Redis}
use container_patterns.WorkQueue.Redis.Effects.{text, number, elem}
use container_patterns.WorkQueue.Redis.Effects.Laws.{elem-snoc_self}
use container_patterns.WorkQueue.Keys.{ready_key, task_key}
use container_patterns.WorkQueue.Tracking.{IsTracked, Counted}
use container_patterns.WorkQueue.Coordinator.{
  attempt_field, status_field, payload_field, envelope_of,
}
use container_patterns.WorkQueue.Coordinator.Enqueue.{enqueued, enqueued_fields, enqueue_tx_view}
use container_patterns.WorkQueue.System.{Phase, System, Reach}
use container_patterns.WorkQueue.System.Anchored.{ready}
use container_patterns.WorkQueue.System.Views.{enqueued-Counted}
use container_patterns.WorkQueue.System.Safety.{Reach-IsTracked}
use container_patterns.EndToEnd.{Json, Request, sends, post_enqueue, place_sent, place_order}
use container_patterns.EndToEnd.Sent.{outcome, serve_sent, serve_kept}
use container_patterns.EndToEnd.Created.{post_enqueue-Enqueued}

module _ (R : Redis) (J : Json) where
  open R use {Db, view}

  -- The transaction of the request has run: it is the whole change of the store.
  pub record Stored (q : Request R J) (d d' : Db) : Type 0 where
    pub request : OrderRequest
    pub body : Bytes
    pub order_id : Bytes
    pub envelope : Bytes
    pub is_sent : sends R J q.method q.request q.available ≡ some request
    pub is_body : J.marshal_order q.order request ≡ some body
    pub names_order : J.order_id_of body ≡ some order_id
    pub is_envelope :
        J.marshal_envelope
          (envelope_of R J.order_id_of J.marshal_envelope q.task q.enqueued_at body)
        ≡ some envelope
    pub shown : view d' ≡ enqueued q.task order_id q.enqueued_at envelope (view d)

  pub outcome-order :
      (order raw : Bytes) (o : Option Bytes) {a t w : Bytes}
      → outcome order raw o ≡ order_response 201 a t w
      → (order ≡ a) × (o ≡ some t) × (raw ≡ w)
  outcome-order order raw none e = cc
  outcome-order order raw (some t) e = (cc, cc, cc)

  pub created-Stored :
      (q : Request R J) (r : OrderRequest) (d : Db) {t : Bytes}
      → sends R J q.method q.request q.available ≡ some r
      → let (call, d') =
          post_enqueue R J q.http q.redis q.task q.enqueued_at (J.marshal_order q.order r) d in
        enqueue J.fulfillable J.task_id call ≡ some t → Stored q d d'
  created-Stored q r d {t} h e =
      let found =
        post_enqueue-Enqueued R J q.http q.redis q.task q.enqueued_at (J.marshal_order q.order r) d
          t e in
      let c = found.was_created in
      record {
        request = r;
        body = found.body;
        order_id = c.order_id;
        envelope = c.envelope;
        is_sent = h;
        is_body = found.was_sent;
        names_order = c.names_order;
        is_envelope = c.is_envelope;
        shown =
            ap view c.stored
            ∙ enqueue_tx_view R J.order_id_of J.marshal_envelope q.task c.order_id q.enqueued_at
                c.envelope d;
      }

  pub created-named :
      (q : Request R J) (r : OrderRequest) (d : Db) {t : Bytes}
      → enqueue J.fulfillable J.task_id
          (post_enqueue R J q.http q.redis q.task q.enqueued_at (J.marshal_order q.order r) d).0
        ≡ some t
      → named J.fulfillable J.task_id (J.task_id (J.encode_created q.task)) ≡ some t
  created-named q r d {t} e =
      (post_enqueue-Enqueued R J q.http q.redis q.task q.enqueued_at (J.marshal_order q.order r) d t
        e).named_so

  pub named-some : (task t : Bytes) → named J.fulfillable J.task_id (some task) ≡ some t → t ≡ task
  named-some [] t e = cc
  named-some (c ∷ cs) t e = cc

  -- However the calls over the network end: if handleOrders answers 201, its order is the request's and
  -- its task is the coordinator's, if the coordinator's answer reads as what was written; and the store
  -- has changed by exactly the transaction of handleEnqueue, on the envelope of the order's own JSON.
  pub place_order-Stored :
      (q : Request R J) (s : Stats) (d : Db) (order task raw : Bytes)
      → J.task_id (J.encode_created q.task) ≡ some q.task
      → (place_order R J q s d).0.0 ≡ order_response 201 order task raw
      → (order ≡ q.order) × (task ≡ q.task) × Stored q d (place_order R J q s d).1
  unfolding place_order
  place_order-Stored q s d order task raw j e =
      split (sends R J q.method q.request q.available) refl e
    where
      split :
          (o : Option OrderRequest)
          → sends R J q.method q.request q.available ≡ o
          → (place_sent R J q o s d).0.0 ≡ order_response 201 order task raw
          → (order ≡ q.order) × (task ≡ q.task) × Stored q d (place_sent R J q o s d).1
      split none h k = absurd (serve_kept R J q no_answer s h (ap status_of k))
      split (some r) h k =
          let call =
            (post_enqueue R J q.http q.redis q.task q.enqueued_at (J.marshal_order q.order r)
              d).0 in
          let (given, avail, shown) = serve_sent R J q r call s h in
          let (same, found, _) =
            outcome-order q.order given (enqueue J.fulfillable J.task_id call) (sym shown ∙ k) in
          (
            sym same,
            named-some q.task task
                (ap (named J.fulfillable J.task_id) (sym j) ∙ created-named q r d found),
            created-Stored q r d h found,
          )

  -- The availability in that answer is the body that the inventory root gave, which says fulfillable.
  pub place_order-available :
      (q : Request R J) (s : Stats) (d : Db) (order task raw : Bytes)
      → (place_order R J q s d).0.0 ≡ order_response 201 order task raw
      → check_availability J.fulfillable J.task_id q.available ≡ some (raw, true)
  unfolding place_order
  place_order-available q s d order task raw e =
      split (sends R J q.method q.request q.available) refl e
    where
      split :
          (o : Option OrderRequest)
          → sends R J q.method q.request q.available ≡ o
          → (place_sent R J q o s d).0.0 ≡ order_response 201 order task raw
          → check_availability J.fulfillable J.task_id q.available ≡ some (raw, true)
      split none h k = absurd (serve_kept R J q no_answer s h (ap status_of k))
      split (some r) h k =
          let call =
            (post_enqueue R J q.http q.redis q.task q.enqueued_at (J.marshal_order q.order r)
              d).0 in
          let (given, avail, shown) = serve_sent R J q r call s h in
          let (_, _, same) =
            outcome-order q.order given (enqueue J.fulfillable J.task_id call) (sym shown ∙ k) in
          avail ∙ ap (λ x. some (x, true)) same

  -- What an accepted order has in the store: its task is the last of the ready list, and its hash has the
  -- envelope, the status and the attempt.
  pub Stored-fields :
      {q : Request R J} {d d' : Db} (st : Stored q d d')
      → ((view d').lists ready_key ≡ (view d).lists ready_key ++ q.task ∷ [])
        × ((view d').hashes (task_key q.task) payload_field ≡ some (text st.envelope))
        × ((view d').hashes (task_key q.task) status_field ≡ some (text (codes "ready")))
        × ((view d').hashes (task_key q.task) attempt_field ≡ some (number 1))
  Stored-fields {q} {d} st =
      rw (st.shown) (enqueued_fields q.task st.order_id q.enqueued_at st.envelope (view d))

  -- An order that is answered by 201 is never lost: whatever steps the workers, the handlers, the reaper and
  -- other clients take from then on, in whatever order, and whichever of their calls fail but for the
  -- ZADD of handleTask, the task of the response can be found in the store, if the attempt counters were
  -- numbers when the order came.
  pub place_order-IsTracked :
      (q : Request R J) (s : Stats) (d : Db) (order task raw : Bytes) (phase : Bytes → Phase)
      (t : System R)
      → J.task_id (J.encode_created q.task) ≡ some q.task
      → Counted (view d)
      → (place_order R J q s d).0.0 ≡ order_response 201 order task raw
      → Reach R (record { db = (place_order R J q s d).1; phase = phase }) t
      → IsTracked (view t.db) task
  place_order-IsTracked q s d order task raw phase t j c e run =
      let (_, same, st) = place_order-Stored q s d order task raw j e in
      let counted =
        subst Counted (sym st.shown)
          (enqueued-Counted q.task st.order_id q.enqueued_at st.envelope (view d) c) in
      let listed : elem q.task ((view (place_order R J q s d).1).lists ready_key) ≡ true =
        rw ((Stored-fields st).0) (elem-snoc_self q.task ((view d).lists ready_key)) in
      subst (IsTracked (view t.db)) (sym same)
        (Reach-IsTracked R q.task run counted (ready listed)).0
