-- ===== src/WorkQueue/Framework.antt =====
-- services/workqueue-framework/main.go: the worker that claims a task, hands it to the stage of the
-- user through files, and acknowledges it. `Stage` is the file handshake.
pub mod Stage
pub mod Claim
pub mod Ack
pub mod Task
pub mod Races
pub mod Progress
pub mod Shutdown
pub mod Heartbeat
mod Tests
use container_patterns.Common.{
  ℕ, ◌+◌, Bool, true, false, ◌&&◌, not, Option, none, some, List, [], ◌∷◌, Bytes, codes,
  if◌then◌else◌,
}
use container_patterns.WorkQueue.Redis.{Redis}
use container_patterns.WorkQueue.Redis.Effects.{View, Value, text, number}
use container_patterns.WorkQueue.Keys.{
  ready_key, inflight_key, done_key, settle_pending_key, task_key, processing_key, worker_key,
}
use container_patterns.WorkQueue.Coordinator.{
  Call, replied, applied, succeeded, status_field, payload_field,
}

-- What claim returns: a task, "" or an error.
pub data ClaimReply : Type 0 where
  claimed : Bytes → ClaimReply
  nothing : ClaimReply
  claim_failed : ClaimReply

-- How the three calls of claim end; SISMEMBER only reads.
pub record ClaimCalls : Type 0 where
  pub blmove : Call
  pub sismember_replies : Bool
  pub lrem : Call

-- How handleTask ends.
pub data TaskEnd : Type 0 where
  abandoned : TaskEnd
  left_for_reaper : TaskEnd
  ack_failed : TaskEnd
  acked : Bool → TaskEnd

-- How the calls of handleTask end. HGET only reads; the LREM is that of lremProcessing.
pub record TaskCalls : Type 0 where
  pub zadd : Call
  pub hget_replies : Bool
  pub lrem : Call
  pub ack : Call

abbrev pub text_of : Option Value → Option Bytes
text_of (some (text t)) = some t
text_of _ = none

abbrev pub is_empty : Bytes → Bool
is_empty [] = true
is_empty (c ∷ cs) = false

module _ (R : Redis) where
  open R use {Db, view, lrem, blmove, zadd, zadd_gt, zrem, sadd, hset, set_key}

  -- lremProcessing of the worker `w`.
  unfoldable pub lrem_processing : Bytes → Call → Bytes → Db → Db
  lrem_processing w call id d = applied call d (lrem (processing_key w) id d)

  -- The idempotency gate of claim, behind the move.
  abbrev pub gate : Bytes → ClaimCalls → Bytes → Db → ClaimReply × Db
  gate w calls id d =
      if not calls.sismember_replies
      then (claim_failed, d)
      else if (view d).sets done_key id
      then (nothing, lrem_processing w calls.lrem id d)
      else (claimed id, d)

  -- BLMOVE that replied, on the ready list that it found; an empty one is the time-out.
  abbrev pub moved : Bytes → ClaimCalls → List Bytes → Db → ClaimReply × Db
  moved w calls [] d = (nothing, d)
  moved w calls (id ∷ ids) d = gate w calls id (blmove ready_key (processing_key w) d)

  unfoldable pub claim : Bytes → ClaimCalls → Db → ClaimReply × Db
  unfolding lrem_processing
  claim w calls d =
      if succeeded calls.blmove
      then moved w calls ((view d).lists ready_key) d
      else (claim_failed, applied calls.blmove d (blmove ready_key (processing_key w) d))

  -- The transaction of ack.
  unfoldable pub ack_tx : Bytes → Bytes → Bytes → Bool → Db → Db
  ack_tx w id order_id success d =
      let d₁ = sadd done_key id d in
      let d₂ =
        if success && not (is_empty order_id) then sadd settle_pending_key order_id d₁ else d₁ in
      let d₃ = lrem (processing_key w) id d₂ in
      let d₄ = zrem inflight_key id d₃ in
      hset (task_key id) status_field (text (if success then codes "done" else codes "failed")) d₄

  -- One beat of heartbeatLoop at the second `now`; `current` is the task in flight or "".
  unfoldable pub beat : Bytes → Call → Call → ℕ → ℕ → Bytes → Db → Db
  beat w set_call zadd_call visibility now current d =
      let alive = applied set_call d (set_key (worker_key w) d) in
      if is_empty current
      then alive
      else applied zadd_call alive (zadd_gt inflight_key (now + visibility) current alive)

  -- One tick of heartbeatLoop: what the rest of the system has done to the store since the last one, how
  -- the two calls end, the second, and the task in flight.
  pub record Pulse : Type 0 where
    pub before : Db → Db
    pub set_call : Call
    pub zadd_call : Call
    pub now : ℕ
    pub current : Bytes

  -- heartbeatLoop: a beat at once, and one for each tick up to the end of the context.
  unfoldable pub heartbeat_loop : Bytes → ℕ → List Pulse → Db → Db
  unfolding beat
  heartbeat_loop w visibility [] d = d
  heartbeat_loop w visibility (p ∷ pulses) d =
      heartbeat_loop w visibility pulses
        (beat w p.set_call p.zadd_call visibility p.now p.current (p.before d))

  -- The JSON of the envelope is read by a parameter: its payload.order_id, or none if it does not
  -- parse.
  module _ (order_id_of : Bytes → Option Bytes) where
    -- extractOrderID
    abbrev pub extract_order_id : Bytes → Bytes
    extract_order_id envelope = elim (order_id_of envelope) [ none ↦ [] | some id ↦ id ]

    -- handleTask behind the stage, which gave a decision or an error. `others` is what the rest of
    -- the system has done to the store while the stage ran.
    abbrev pub after_stage : Bytes → TaskCalls → Bytes → Bytes → Option Bool → Db → TaskEnd × Db
    after_stage w calls id envelope none d = (left_for_reaper, lrem_processing w calls.lrem id d)
    after_stage w calls id envelope (some success) d = (
      (if succeeded calls.ack then acked success else ack_failed),
      applied calls.ack d (ack_tx w id (extract_order_id envelope) success d),
    )

    -- handleTask behind HGET, which gave the envelope or not.
    abbrev pub with_envelope :
        Bytes
        → TaskCalls
        → Bytes
        → (Bytes → Option Bool)
        → (Db → Db)
        → Option Bytes
        → Db
        → TaskEnd × Db
    with_envelope w calls id stage others none d =
        (left_for_reaper, lrem_processing w calls.lrem id d)
    with_envelope w calls id stage others (some envelope) d =
        after_stage w calls id envelope (stage envelope) (others d)

    abbrev pub envelope_read : TaskCalls → Bytes → Db → Option Bytes
    envelope_read calls id d =
        if calls.hget_replies then text_of ((view d).hashes (task_key id) payload_field) else none

    -- The whole of handleTask at the second `now`.
    unfoldable pub handle_task :
        Bytes → TaskCalls → ℕ → ℕ → Bytes → (Bytes → Option Bool) → (Db → Db) → Db → TaskEnd × Db
    handle_task w calls visibility now id stage others d =
        let d₁ = applied calls.zadd d (zadd inflight_key (now + visibility) id d) in
        if succeeded calls.zadd
        then with_envelope w calls id stage others (envelope_read calls id d₁) d₁
        else (abandoned, lrem_processing w calls.lrem id d₁)

    -- One round of runLoop: whether the context is cancelled before it, and after a claim that failed;
    -- what the rest of the system does to the store before it and while the stage runs; and how its
    -- calls end.
    pub record Round : Type 0 where
      pub cancelled : Bool
      pub cancelled_after : Bool
      pub before : Db → Db
      pub others : Db → Db
      pub claim_calls : ClaimCalls
      pub task_calls : TaskCalls
      pub visibility : ℕ
      pub now : ℕ
      pub stage : Bytes → Option Bool

    -- The rest of a round behind claim; `again` is the next one.
    abbrev pub after_claim : Bytes → Round → (Db → Db) → ClaimReply × Db → Db
    after_claim w r again (claim_failed, d) = if r.cancelled_after then d else again d
    after_claim w r again (nothing, d) = again d
    after_claim w r again (claimed [], d) = again d
    after_claim w r again (claimed (c ∷ cs), d) =
        again (handle_task w r.task_calls r.visibility r.now (c ∷ cs) r.stage r.others d).1

    -- runLoop, over the rounds that there are.
    unfoldable pub run_loop : Bytes → List Round → Db → Db
    run_loop w [] d = d
    run_loop w (r ∷ rounds) d =
        if r.cancelled
        then d
        else after_claim w r (run_loop w rounds) (claim w r.claim_calls (r.before d))
