-- ===== src/WorkQueue/Framework/Task.antt =====
-- handleTask: it loses no task once ZADD has answered.
use mathlib.Core.Path.{subst}
use container_patterns.Common.{
  ℕ, ◌+◌, ◌≡◌, refl, sym, ap, ◌∙◌, ◌⊎◌, inl, inr, Bool, true, false, not, ◌&&◌, Option, none, some,
  Bytes, bytes_eq, bytes_eq_iff, Bool-cases, if◌then◌else◌,
}
use container_patterns.WorkQueue.Redis.{Redis}
use container_patterns.WorkQueue.Redis.Effects
use container_patterns.WorkQueue.Redis.Effects.{
  View, Value, text, number, elem, score, update, remove_first, place, remove_member,
}
use container_patterns.WorkQueue.Redis.Effects.Laws.{bytes_eq_refl, score-zadd, score-remove_member}
use container_patterns.WorkQueue.Keys.{done_key, inflight_key, settle_pending_key, task_key}
use container_patterns.WorkQueue.Tracking.{
  IsTracked, in_ready, in_dead, in_processing, in_flight, is_done, lrem-IsTracked, IsHeld,
}
use container_patterns.WorkQueue.Coordinator.{
  Call, replied, request_lost, reply_lost, applied, status_field,
}
use container_patterns.WorkQueue.Framework.{
  TaskCalls, is_empty, lrem_processing, extract_order_id, after_stage, with_envelope, envelope_read,
  handle_task,
}
use container_patterns.WorkQueue.Framework.Ack.{acknowledged, ack_tx_lem, acknowledged_done}

zadd-IsTracked :
    (s : ℕ) (id : Bytes) (v : View) (j : Bytes)
    → IsTracked v j
    → IsTracked (Effects.zadd inflight_key s id v) j
zadd-IsTracked s id v j (in_ready h) = in_ready h
zadd-IsTracked s id v j (in_dead h) = in_dead h
zadd-IsTracked s id v j (in_processing u h) = in_processing u h
zadd-IsTracked s id v j (is_done h) = is_done h
zadd-IsTracked s id v j (in_flight t h) = elim (Bool-cases (bytes_eq j id)) [
  | inl same ↦ in_flight s (rw (bytes_eq_refl inflight_key, score-zadd, same) refl)
  | inr other ↦ in_flight t (rw (bytes_eq_refl inflight_key, score-zadd, other) h)
]

zadd-IsHeld : (s : ℕ) (w id : Bytes) (v : View) → IsHeld w (Effects.zadd inflight_key s id v) id
zadd-IsHeld s w id v =
    in_flight s (rw (bytes_eq_refl inflight_key, score-zadd, bytes_eq_refl id) refl)

sadd-IsTracked :
    (k m : Bytes) (v : View) (j : Bytes) → IsTracked v j → IsTracked (Effects.sadd k m v) j
sadd-IsTracked k m v j (in_ready h) = in_ready h
sadd-IsTracked k m v j (in_dead h) = in_dead h
sadd-IsTracked k m v j (in_processing u h) = in_processing u h
sadd-IsTracked k m v j (in_flight s h) = in_flight s h
sadd-IsTracked k m v j (is_done h) = is_done (elim (Bool-cases (bytes_eq done_key k)) [
  | inr other ↦ rw other h
  | inl same ↦ elim (Bool-cases (bytes_eq j m)) [
    | inl hit ↦ rw (same, hit) refl
    | inr miss ↦ rw (same, miss) (ap (λ c. v.sets c j) (sym ((bytes_eq_iff _ _).0 same)) ∙ h)
  ]
])

hset-IsTracked :
    (k f : Bytes) (x : Value) (v : View) (j : Bytes)
    → IsTracked v j
    → IsTracked (Effects.hset k f x v) j
hset-IsTracked k f x v j (in_ready h) = in_ready h
hset-IsTracked k f x v j (in_dead h) = in_dead h
hset-IsTracked k f x v j (in_processing u h) = in_processing u h
hset-IsTracked k f x v j (in_flight s h) = in_flight s h
hset-IsTracked k f x v j (is_done h) = is_done h

zrem-IsTracked :
    (id : Bytes) (v : View) (j : Bytes)
    → bytes_eq j id ≡ false
    → IsTracked v j
    → IsTracked (Effects.zrem inflight_key id v) j
zrem-IsTracked id v j ne (in_ready h) = in_ready h
zrem-IsTracked id v j ne (in_dead h) = in_dead h
zrem-IsTracked id v j ne (in_processing u h) = in_processing u h
zrem-IsTracked id v j ne (is_done h) = is_done h
zrem-IsTracked id v j ne (in_flight s h) =
    in_flight s (rw (bytes_eq_refl inflight_key, score-remove_member, ne) h)

module _ (R : Redis) where
  open R use {Db, view}

  acknowledged-IsTracked :
      (w id order_id : Bytes) (success : Bool) (v : View) (j : Bytes)
      → IsTracked v j
      → IsTracked (acknowledged w id order_id success v) j
  acknowledged-IsTracked w id order_id success v j t = elim (Bool-cases (bytes_eq j id)) [
    | inl same ↦ is_done (
        ap ((acknowledged w id order_id success v).sets done_key) ((bytes_eq_iff j id).0 same)
        ∙ acknowledged_done R w id order_id success v)
    | inr ne ↦ hset-IsTracked (task_key id) status_field _ _ j (
        zrem-IsTracked id _ j ne
          (lrem-IsTracked w id _ j (inl ne) (pending (success && not (is_empty order_id)))))
  ]
    where
      pending :
          (b : Bool)
          → IsTracked
              (if b
                then Effects.sadd settle_pending_key order_id (Effects.sadd done_key id v)
                else Effects.sadd done_key id v)
              j
      pending true =
          sadd-IsTracked settle_pending_key order_id _ j (sadd-IsTracked done_key id v j t)
      pending false = sadd-IsTracked done_key id v j t

  applied-IsTracked :
      (call : Call) (j : Bytes) {d d' : Db}
      → IsTracked (view d) j
      → IsTracked (view d') j
      → IsTracked (view (applied call d d')) j
  applied-IsTracked replied j t t' = t'
  applied-IsTracked request_lost j t t' = t
  applied-IsTracked reply_lost j t t' = t'

  -- lremProcessing of a task that is held elsewhere.
  lrem_processing-IsTracked :
      (w : Bytes) (call : Call) (id : Bytes) (d : Db) (j : Bytes)
      → IsHeld w (view d) id
      → IsTracked (view d) j
      → IsTracked (view (lrem_processing R w call id d)) j
  unfolding lrem_processing
  lrem_processing-IsTracked w call id d j held t =
      applied-IsTracked call j t (rw R.view-lrem (lrem-IsTracked w id (view d) j other_or_held t))
    where
      other_or_held : (bytes_eq j id ≡ false) ⊎ IsHeld w (view d) j
      other_or_held = elim (Bool-cases (bytes_eq j id)) [
        | inl same ↦ inr (subst (IsHeld w (view d)) (sym ((bytes_eq_iff j id).0 same)) held)
        | inr ne ↦ inl ne
      ]

  module _ (order_id_of : Bytes → Option Bytes) where
    after_stage-IsTracked :
        (w : Bytes) (calls : TaskCalls) (id envelope : Bytes) (o : Option Bool) (d : Db) (j : Bytes)
        → IsHeld w (view d) id
        → IsTracked (view d) j
        → IsTracked (view (after_stage R order_id_of w calls id envelope o d).1) j
    after_stage-IsTracked w calls id envelope none d j held t =
        lrem_processing-IsTracked w calls.lrem id d j held t
    after_stage-IsTracked w calls id envelope (some success) d j held t =
        applied-IsTracked calls.ack j t (
          rw (ack_tx_lem R w id (extract_order_id R order_id_of envelope) success d) (
            acknowledged-IsTracked w id (extract_order_id R order_id_of envelope) success (view d) j
              t))

    with_envelope-IsTracked :
        (w : Bytes) (calls : TaskCalls) (id : Bytes) (stage : Bytes → Option Bool)
        (others : Db → Db) (o : Option Bytes) (d : Db) (j : Bytes)
        → ((x : Bytes) → IsTracked (view d) x → IsTracked (view (others d)) x)
        → ((x : Bytes) → IsHeld w (view d) x → IsHeld w (view (others d)) x)
        → IsHeld w (view d) id
        → IsTracked (view d) j
        → IsTracked (view (with_envelope R order_id_of w calls id stage others o d).1) j
    with_envelope-IsTracked w calls id stage others none d j keep hold held t =
        lrem_processing-IsTracked w calls.lrem id d j held t
    with_envelope-IsTracked w calls id stage others (some envelope) d j keep hold held t =
        after_stage-IsTracked w calls id envelope (stage envelope) (others d) j (hold id held)
          (keep j t)

    -- Once ZADD has answered, handleTask loses no task, neither its own nor another, whichever of its
    -- other calls fail, whether the stage answers, fails or times out, and whatever the rest of the
    -- system does meanwhile, as long as that loses no task either and does not rely on this worker's
    -- own list for it.
    pub handle_task-IsTracked :
        (w : Bytes) (calls : TaskCalls) (visibility now : ℕ) (id : Bytes)
        (stage : Bytes → Option Bool) (others : Db → Db) (d : Db) (j : Bytes)
        → ((e : Db) (x : Bytes) → IsTracked (view e) x → IsTracked (view (others e)) x)
        → ((e : Db) (x : Bytes) → IsHeld w (view e) x → IsHeld w (view (others e)) x)
        → calls.zadd ≡ replied
        → IsTracked (view d) j
        → IsTracked (view (handle_task R order_id_of w calls visibility now id stage others d).1) j
    unfolding handle_task
    handle_task-IsTracked w calls visibility now id stage others d j keep hold answered t =
        let d₁ = R.zadd inflight_key (now + visibility) id d in
        rw answered (
          with_envelope-IsTracked w calls id stage others (envelope_read R order_id_of calls id d₁)
            d₁ j (keep d₁) (hold d₁) (rw R.view-zadd (zadd-IsHeld (now + visibility) w id (view d)))
            (rw R.view-zadd (zadd-IsTracked (now + visibility) id (view d) j t)))
