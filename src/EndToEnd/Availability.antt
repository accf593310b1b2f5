-- ===== src/EndToEnd/Availability.antt =====
-- The other call of handleOrders: checkAvailability of services/order-api/main.go, at the inventory root
-- (services/inventory-root/main.go) and the merge service behind it.
mod Tests
use container_patterns.Common.{
  ℕ, ◌<◌, ◌≤◌, ◌≡◌, refl, sym, ap, ◌∙◌, inl, inr, Bool, true, false, ◌||◌, Option, none, some, List,
  [], ◌∷◌, ◌++◌, arith, Bytes, codes, Bool-cases, ltb, leb, length, if◌then◌else◌,
}
use container_patterns.OrderApi.Stats.{Stats}
use container_patterns.OrderApi.Orders.{
  PostCall, no_answer, answered, order_response, post_json, decoded_availability, availability_of,
  check_availability,
}
use container_patterns.Inventory.Scatter.{Partial}
use container_patterns.Inventory.Scatter.Order.{in_order, member}
use container_patterns.Inventory.Root
use container_patterns.Inventory.Root.{
  Envelope, MergeCall, no_request, merge_failed, merge_unreadable, merged, failure, success,
  relayed, relay_merge, envelope_for, handle_availability,
}
use container_patterns.Inventory.Root.Relay.{availability_any_order}
use container_patterns.WorkQueue.Redis.{Redis}
use container_patterns.WorkQueue.Coordinator.{Call, replied, request_lost, reply_lost}
use container_patterns.EndToEnd.{Json, Request, place_order}
use container_patterns.EndToEnd.Placed.{place_order-available}

-- What order-api sees of the root's response; http.Error ends its text with a newline.
unfoldable pub seen : Root.Response → PostCall
seen (failure status message) = answered status (some (message ++ b'\n' ∷ []))
seen (success status content body) = answered status (some body)

-- postJSON of /availability, by how the call over HTTP ends.
unfoldable pub post_availability : Call → Root.Response → PostCall
unfolding seen
post_availability replied r = seen r
post_availability request_lost r = no_answer
post_availability reply_lost r = no_answer

module _ (fulfillable : Bytes → Option Bool) (task_id : Bytes → Option Bytes) where
  decoded :
      (body raw : Bytes) (b : Bool) (o : Option Bool)
      → fulfillable body ≡ o
      → decoded_availability fulfillable task_id body o ≡ some (raw, b)
      → (body ≡ raw) × (fulfillable raw ≡ some b)
  decoded body raw b none f e = cc
  decoded body raw b (some c) f e =
      let (same, said) : (body ≡ raw) × (c ≡ b) = ground arith in
      (same, ap fulfillable (sym same) ∙ f ∙ ap some said)

  success_statuses :
      (status : ℕ) → (ltb status 200 || leb 300 status) ≡ false → (200 ≤ status) × (status < 300)
  success_statuses status h = ground arith

  -- A status that is a success, and a body that decodes.
  answered-available :
      (status : ℕ) (body raw : Bytes) (b : Bool)
      → check_availability fulfillable task_id (answered status (some body)) ≡ some (raw, b)
      → (200 ≤ status) × (status < 300) × (body ≡ raw) × (fulfillable raw ≡ some b)
  unfolding check_availability post_json
  answered-available status body raw b e = elim (Bool-cases (ltb status 200 || leb 300 status)) [
    | inl bad ↦ cc (rw bad at e)
    | inr good ↦
        let (low, high) = success_statuses status good in
        let (same, said) = decoded body raw b (fulfillable body) refl (rw good at e) in
        (low, high, same, said)
  ]

  unanswered-available :
      (raw : Bytes) (b : Bool)
      → ¬ (check_availability fulfillable task_id no_answer ≡ some (raw, b))
  unfolding check_availability
  unanswered-available raw b e = cc

  -- No failure of the root reads as an availability.
  failure-available :
      (status : ℕ) (message raw : Bytes) (b : Bool)
      → 300 ≤ status
      → ¬ (check_availability fulfillable task_id (seen (failure status message)) ≡ some (raw, b))
  unfolding seen
  failure-available status message raw b h e =
      let (_, high, _, _) = answered-available status (message ++ b'\n' ∷ []) raw b e in
      omega (arith, h, high)

  -- What the merge service has answered, if the root's response reads as an availability.
  pub record Judged (merge : Bytes → MergeCall) (payload raw : Bytes) (b : Bool) : Type 0 where
    pub status : ℕ
    pub content : Bytes
    pub was_merged : merge payload ≡ merged status content raw
    pub is_success : (200 ≤ status) × (status < 300)
    pub says : fulfillable raw ≡ some b

  relayed-Judged :
      (merge : Bytes → MergeCall) (payload raw : Bytes) (b : Bool) (m : MergeCall)
      → merge payload ≡ m
      → check_availability fulfillable task_id (seen (relayed m)) ≡ some (raw, b)
      → Judged merge payload raw b
  relayed-Judged merge payload raw b no_request f e =
      absurd (failure-available 500 _ raw b (omega arith) e)
  relayed-Judged merge payload raw b (merge_failed x) f e =
      absurd (failure-available 502 _ raw b (omega arith) e)
  relayed-Judged merge payload raw b merge_unreadable f e =
      absurd (failure-available 502 _ raw b (omega arith) e)
  relayed-Judged merge payload raw b (merged status content body) f e =
      let (low, high, same, said) = answered-available status body raw b (unfold seen in e) in
      record {
        status = status;
        content = content;
        was_merged = f ∙ ap (merged status content) same;
        is_success = (low, high);
        says = said;
      }

  -- relayMerge, from what it relays.
  relay_merge-Judged :
      (marshal : Envelope → Option Bytes) (merge : Bytes → MergeCall) (env : Envelope) (raw : Bytes)
      (b : Bool)
      → check_availability fulfillable task_id (seen (relay_merge marshal merge env))
        ≡ some (raw, b)
      → (payload : Bytes) × (marshal env ≡ some payload) × Judged merge payload raw b
  unfolding relay_merge
  relay_merge-Judged marshal merge env raw b e = split (marshal env) refl (unfold relay_merge in e)
    where
      split :
          (m : Option Bytes)
          → marshal env ≡ m
          → check_availability fulfillable task_id (
              seen (elim m [
                | none ↦ failure 500 (codes "failed to encode merge payload")
                | some payload ↦ relayed (merge payload)
              ]))
            ≡ some (raw, b)
          → (payload : Bytes) × (marshal env ≡ some payload) × Judged merge payload raw b
      split none f k = absurd (failure-available 500 _ raw b (omega arith) k)
      split (some payload) f k =
          (payload, f, relayed-Judged merge payload raw b (merge payload) refl k)

  module _ (valid : Bytes → Bool) (marshal : Envelope → Option Bytes) (merge : Bytes → MergeCall)
      (call : Bytes → ℕ → Bytes → Partial) (eps : List Bytes) (ends : List ℕ) where
    invalid_refused :
        (body raw : Bytes) (b : Bool)
        → valid body ≡ false
        → ¬ (
            check_availability fulfillable task_id
              (seen (handle_availability valid marshal merge call eps ends Root.post (some body)))
            ≡ some (raw, b))
    unfolding handle_availability
    invalid_refused body raw b v e =
        absurd (failure-available 400 _ raw b (omega arith) (rw v at e))

    -- The answer of the inventory root that reads as an availability.
    pub handle_availability-Judged :
        (http : Call) (body raw : Bytes) (b : Bool)
        → ((i : ℕ) → i < length eps → member i ends ≡ true)
        → check_availability fulfillable task_id (
            post_availability http
              (handle_availability valid marshal merge call eps ends Root.post (some body)))
          ≡ some (raw, b)
        → (env : Envelope) × (payload : Bytes) × (env.query ≡ body)
          × (env.partials ≡ in_order (call body) 0 eps)
          × (marshal env ≡ some payload)
          × Judged merge payload raw b
    unfolding post_availability
    handle_availability-Judged request_lost body raw b all e = absurd (unanswered-available raw b e)
    handle_availability-Judged reply_lost body raw b all e = absurd (unanswered-available raw b e)
    handle_availability-Judged replied body raw b all e = elim (Bool-cases (valid body)) [
      | inr bad ↦ absurd (invalid_refused body raw b bad e)
      | inl good ↦
          let env = envelope_for body (in_order (call body) 0 eps) in
          let (payload, sent, judged) = relay_merge-Judged marshal merge env raw b (
            ap (λ r. check_availability fulfillable task_id (seen r))
              (sym (availability_any_order valid marshal merge call eps ends body good all))
            ∙ e) in
          (env, payload, unfold envelope_for in refl, unfold envelope_for in refl, sent, judged)
    ]

module _ (R : Redis) (J : Json) where
  open R use {Db}

  -- An order is only placed on the word of the merge service: if handleOrders answers 201, where its call
  -- of /availability goes to the inventory root and every leaf has ended, then the merge service was given
  -- an envelope with the query and the partials of all leaves in the configured order, in whatever
  -- order the leaves ended, it answered with a success, its body says fulfillable, and that body is the
  -- availability in the response.
  pub place_order-Judged :
      (valid : Bytes → Bool) (marshal : Envelope → Option Bytes) (merge : Bytes → MergeCall)
      (call : Bytes → ℕ → Bytes → Partial) (eps : List Bytes) (ends : List ℕ) (body : Bytes)
      (http : Call) (q : Request R J) (s : Stats) (d : Db) (order task raw : Bytes)
      → ((i : ℕ) → i < length eps → member i ends ≡ true)
      → q.available
        ≡ post_availability http
            (handle_availability valid marshal merge call eps ends Root.post (some body))
      → (place_order R J q s d).0.0 ≡ order_response 201 order task raw
      → (env : Envelope) × (payload : Bytes) × (env.query ≡ body)
        × (env.partials ≡ in_order (call body) 0 eps)
        × (marshal env ≡ some payload)
        × Judged J.fulfillable J.task_id merge payload raw true
  place_order-Judged valid marshal merge call eps ends body http q s d order task raw all e
        accepted =
      handle_availability-Judged J.fulfillable J.task_id valid marshal merge call eps ends http body
        raw true all
        (ap (check_availability J.fulfillable J.task_id) (sym e)
          ∙ place_order-available R J q s d order task raw accepted)
