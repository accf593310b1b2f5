-- ===== src/EndToEnd/Finished.antt =====
-- The whole way of an order: accepted by the two services, worked on by a worker, and pending
-- settlement.
use mathlib.Core.Path.{subst}
use container_patterns.Common.{
  ◌≡◌, ◌≢◌, sym, ap, ◌∙◌, inl, inr, true, false, Bool-cases, Option, some, List, [], ◌∷◌, ◌++◌,
  Bytes, bytes_eq, bytes_eq_iff, All, length,
}
use container_patterns.OrderApi.Stats.{Stats}
use container_patterns.OrderApi.Orders.{OrderRequest, order_response}
use container_patterns.WorkQueue.Redis.{Redis}
use container_patterns.WorkQueue.Redis.Effects.{View, elem}
use container_patterns.WorkQueue.Keys.{ready_key, done_key, settle_pending_key, task_key}
use container_patterns.WorkQueue.Coordinator.{payload_field, envelope_of}
use container_patterns.WorkQueue.Coordinator.Enqueue.{enqueued, enqueued_fields, task_not_order}
use container_patterns.WorkQueue.Framework.{Round, run_loop}
use container_patterns.WorkQueue.Framework.Progress.{HasPayload}
use container_patterns.WorkQueue.Framework.Progress.Rounds.{IsSteady, last_round}
use container_patterns.WorkQueue.Framework.Progress.Drained.{run_loop-append}
use container_patterns.EndToEnd.{Json, Request, place_order}
use container_patterns.EndToEnd.Placed.{Stored-fields, place_order-Stored}

-- The transaction of handleEnqueue takes no task's envelope away.
enqueued-HasPayload :
    (task order at envelope : Bytes) (v : View) (id : Bytes)
    → HasPayload v id
    → HasPayload (enqueued task order at envelope v) id
enqueued-HasPayload task order at envelope v id (ne, (e, paid)) =
    elim (Bool-cases (bytes_eq (task_key id) (task_key task))) [
      | inl same ↦ (
        ne,
        (
          envelope,
          ap (λ k. (enqueued task order at envelope v).hashes k payload_field)
                ((bytes_eq_iff _ _).0 same)
              ∙ (enqueued_fields task order at envelope v).1,
        ),
      )
      | inr other ↦ (ne, (e, rw (task_not_order id order, other) paid))
    ]

enqueued-All :
    (task order at envelope : Bytes) (v : View) (ids : List Bytes)
    → All (HasPayload v) ids
    → All (HasPayload (enqueued task order at envelope v)) ids
enqueued-All task order at envelope v [] h = tt
enqueued-All task order at envelope v (id ∷ ids) (h, hs) = (
  enqueued-HasPayload task order at envelope v id h,
  enqueued-All task order at envelope v ids hs,
)

module _ (R : Redis) (J : Json) (worker_order_id : Bytes → Option Bytes) where
  open R use {Db, view}

  -- The worker reads the order's id from the envelope of the order's own JSON.
  abbrev pub ReadsOrder : Request R J → Type 0
  ReadsOrder q =
      (r : OrderRequest) (body envelope : Bytes)
      → J.marshal_order q.order r ≡ some body
      → J.marshal_envelope
          (envelope_of R J.order_id_of J.marshal_envelope q.task q.enqueued_at body)
        ≡ some envelope
      → worker_order_id envelope ≡ some q.order

  -- An order that is answered by 201 is carried out: after as many rounds of a worker's runLoop as there
  -- were tasks ready before it, and one more, its task is finished, its order is pending settlement,
  -- and the ready list is empty. The worker's calls all reply and its stage decides in each round, and
  -- agrees in the last; nobody else is at the store; each task that was ready has an id and an
  -- envelope; the new task's id is neither empty nor one of theirs, and not finished; and JSON reads
  -- back what was written.
  pub place_order-finishes :
      (q : Request R J) (s : Stats) (d : Db) (order task raw w : Bytes) (ids : List Bytes)
      (rounds : List (Round R worker_order_id)) (last : Round R worker_order_id)
      → J.task_id (J.encode_created q.task) ≡ some q.task
      → ReadsOrder q
      → q.task ≢ []
      → q.order ≢ []
      → (view d).lists ready_key ≡ ids
      → All (HasPayload (view d)) ids
      → elem q.task ids ≡ false
      → (view d).sets done_key q.task ≡ false
      → All (IsSteady R worker_order_id) rounds
      → length rounds ≡ length ids
      → IsSteady R worker_order_id last
      → ((e : Bytes) → last.stage e ≡ some true)
      → (place_order R J q s d).0.0 ≡ order_response 201 order task raw
      → let v =
          view (run_loop R worker_order_id w (rounds ++ last ∷ []) (place_order R J q s d).1) in
        (v.sets done_key task ≡ true)
        × (v.sets settle_pending_key order ≡ true)
        × (v.lists ready_key ≡ [])
  place_order-finishes q s d order task raw w ids rounds last j reads ne ne' e paid out new st n h
        agrees answered =
      let placed = (place_order R J q s d).1 in
      let (same_order, same_task, stored) =
        place_order-Stored R J q s d order task raw j answered in
      let fields = Stored-fields R J stored in
      let queued : (view placed).lists ready_key ≡ ids ++ q.task ∷ [] =
        fields.0 ∙ ap (λ l. l ++ q.task ∷ []) e in
      let kept : All (HasPayload (view placed)) ids =
        subst (λ v. All (HasPayload v) ids) (sym stored.shown)
          (enqueued-All q.task stored.order_id q.enqueued_at stored.envelope (view d) ids paid) in
      let fresh : (view placed).sets done_key q.task ≡ false =
        ap (λ v. v.sets done_key q.task) stored.shown ∙ new in
      let (d', run, drained) =
        run_loop-append R worker_order_id w rounds (last ∷ []) ids (q.task ∷ []) placed st n queued
          kept in
      rw (run, same_order, same_task)
        (last_round R worker_order_id w q.task q.order stored.envelope last d' h agrees ne ne'
          (reads stored.request stored.body stored.envelope stored.is_body stored.is_envelope)
          drained.ready (drained.others q.task out ∙ fresh) (drained.payload q.task ∙ fields.1))
