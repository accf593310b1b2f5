-- ===== src/WorkQueue/Coordinator.antt =====
-- services/workqueue-coordinator: POST /enqueue (enqueue.go) and the reaper with its two Lua
-- scripts (reaper.go). A script runs alone in Redis, so it is one function on the store.
pub mod Retry
pub mod Drain
pub mod Reaper
pub mod Enqueue
pub mod Process
mod Tests
use container_patterns.Common.{
  ℕ, zero, suc, ◌+◌, Bool, true, false, Option, none, some, List, [], ◌∷◌, ◌++◌, Bytes, codes,
  length, bytes_eq, ltb, leb, if◌then◌else◌, trim_prefix,
}
use container_patterns.WorkQueue.Redis.{Redis}
use container_patterns.WorkQueue.Redis.Effects.{
  View, Value, text, number, elem, score, range_by_score,
}
use container_patterns.WorkQueue.Keys.{
  ready_key, inflight_key, dead_key, task_key, order_key, processing_key, worker_key,
}

-- How a call over the network ends: with its reply, or with an error after which the command has
-- not run or has run.
pub data Call : Type 0 where
  replied : Call
  request_lost : Call
  reply_lost : Call

abbrev pub applied : {A : Type 0} → Call → A → A → A
applied replied old new = new
applied request_lost old new = old
applied reply_lost old new = new

abbrev pub succeeded : Call → Bool
succeeded replied = true
succeeded _ = false

-- taskEnvelope of enqueue.go.
pub record TaskEnvelope : Type 0 where
  pub task_id : Bytes
  pub kind : Bytes
  pub attempt : ℕ
  pub enqueued_at : Bytes
  pub payload : Bytes

-- What handleEnqueue answers: 201 with the task's id, or an error with its status.
pub data EnqueueReply : Type 0 where
  created : Bytes → EnqueueReply
  refused : ℕ → Bytes → EnqueueReply

abbrev pub attempt_field : Bytes
attempt_field = codes "attempt"

abbrev pub status_field : Bytes
status_field = codes "status"

abbrev pub payload_field : Bytes
payload_field = codes "payload"

-- HINCRBY's reply, from the field before it: the new number, or an error.
abbrev pub incremented : Option Value → Option ℕ
incremented none = some 1
incremented (some (number n)) = some (n + 1)
incremented (some (text t)) = none

abbrev pub is_some : Option ℕ → Bool
is_some none = false
is_some (some n) = true

-- What drainDeadWorkerScript returns.
pub data DrainReply : Type 0 where
  still_alive : DrainReply
  drained : ℕ → DrainReply
  broke_off : DrainReply

module _ (R : Redis) where
  open R use {Db, view, rpush, del, zrem, hset, hincrby}

  -- The transaction of handleEnqueue.
  unfoldable pub enqueue_tx : Bytes → Bytes → Bytes → Bytes → Db → Db
  enqueue_tx task_id order_id enqueued_at envelope d =
      let task = task_key task_id in
      let d₁ = hset task payload_field (text envelope) d in
      let d₂ = hset task status_field (text (codes "ready")) d₁ in
      let d₃ = hset task attempt_field (number 1) d₂ in
      let d₄ = hset task (codes "enqueued_at") (text enqueued_at) d₃ in
      let d₅ = hset (order_key order_id) (codes "finalized") (text (codes "0")) d₄ in
      rpush ready_key task_id d₅

  -- `is_post`; the body, `none` if it cannot be read or is over 1 MiB; the new id and the time.
  -- encoding/json is a parameter: `order_id_of` reads the order's id (an absent one is empty),
  -- `marshal` writes the envelope.
  module _ (order_id_of : Bytes → Option Bytes) (marshal : TaskEnvelope → Option Bytes) where
    abbrev pub envelope_of : Bytes → Bytes → Bytes → TaskEnvelope
    envelope_of task_id enqueued_at body = record {
      task_id = task_id;
      kind = codes "order.process";
      attempt = 1;
      enqueued_at = enqueued_at;
      payload = body;
    }

    -- pipe.Exec and the answer.
    abbrev pub submit : Call → Bytes → Bytes → Bytes → Option Bytes → Db → EnqueueReply × Db
    submit call task_id order_id enqueued_at none d =
        (refused 500 (codes "failed to build task envelope"), d)
    submit call task_id order_id enqueued_at (some envelope) d =
        let d' = applied call d (enqueue_tx task_id order_id enqueued_at envelope d) in
        (
          (if succeeded call
              then created task_id
              else refused 500 (codes "failed to enqueue task")),
          d',
        )

    abbrev pub check_order : Call → Bytes → Bytes → Bytes → Option Bytes → Db → EnqueueReply × Db
    check_order call task_id enqueued_at body none d =
        (refused 400 (codes "body is not valid JSON"), d)
    check_order call task_id enqueued_at body (some []) d =
        (refused 400 (codes "order_id is required"), d)
    check_order call task_id enqueued_at body (some (c ∷ cs)) d =
        submit call task_id (c ∷ cs) enqueued_at (marshal (envelope_of task_id enqueued_at body)) d

    unfoldable pub handle_enqueue :
        Call → Bool → Option Bytes → Bytes → Bytes → Db → EnqueueReply × Db
    handle_enqueue call false body task_id enqueued_at d =
        (refused 405 (codes "method not allowed"), d)
    handle_enqueue call true none task_id enqueued_at d =
        (refused 400 (codes "unable to read request body"), d)
    handle_enqueue call true (some body) task_id enqueued_at d =
        check_order call task_id enqueued_at body (order_id_of body) d

  -- The end of both scripts for one id, at its new attempt number: the dead list past the maximum,
  -- the ready list otherwise. A negative MAX_ATTEMPTS acts as 0.
  abbrev pub push_again : ℕ → Bytes → Option ℕ → Db → Option ℕ × Db
  push_again max id none d = (none, d)
  push_again max id (some attempt) d =
      let counted = hincrby (task_key id) attempt_field d in
      if ltb max attempt
      then (
        some 2,
        hset (task_key id) status_field (text (codes "dead")) (rpush dead_key id counted),
      )
      else (
        some 1,
        hset (task_key id) status_field (text (codes "ready")) (rpush ready_key id counted),
      )

  -- ZREM, HINCRBY and the push. `none` is an error of HINCRBY, which ends the script there.
  unfoldable pub retry_task : ℕ → Bytes → Db → Option ℕ × Db
  retry_task max id d =
      let cleared = zrem inflight_key id d in
      push_again max id (incremented ((view cleared).hashes (task_key id) attempt_field)) cleared

  abbrev pub requeue_member : ℕ → Bytes → Option ℕ → Db → Option ℕ × Db
  requeue_member max id none d = (some 0, d)
  requeue_member max id (some s) d = retry_task max id d

  -- requeueExpiredScript: ZREM tells whether the id was in flight.
  unfoldable pub requeue_expired : ℕ → Bytes → Db → Option ℕ × Db
  requeue_expired max id d = requeue_member max id (score id ((view d).zsets inflight_key)) d

  -- The `for` loop of drainDeadWorkerScript; `false` if the script broke off.
  unfoldable pub drain_ids : ℕ → List Bytes → Db → Bool × Db
  drain_ids max [] d = (true, d)
  drain_ids max (id ∷ ids) d =
      let (reply, d') = retry_task max id d in
      let rest = drain_ids max ids d' in if is_some reply then rest else (false, d')

  abbrev pub clear_list : Bytes → ℕ → Bool × Db → DrainReply × Db
  clear_list key n (true, d) = (drained n, del key d)
  clear_list key n (false, d) = (broke_off, d)

  -- drainDeadWorkerScript on the list `key` of the worker `w`.
  unfoldable pub drain_dead_worker : ℕ → Bytes → Bytes → Db → DrainReply × Db
  drain_dead_worker max key w d =
      if (view d).strings (worker_key w)
      then (still_alive, d)
      else (let ids = (view d).lists key in clear_list key (length ids) (drain_ids max ids d))

  -- The loop of reapExpiredInflight, over the ids that ZRANGEBYSCORE gave; an error is logged and
  -- the loop goes on.
  unfoldable pub requeue_all : (Bytes → Call) → ℕ → List Bytes → Db → Db
  requeue_all calls max [] d = d
  requeue_all calls max (id ∷ ids) d =
      requeue_all calls max ids (applied (calls id) d (requeue_expired max id d).1)

  -- reapExpiredInflight at the second `now`; `listed` is whether ZRANGEBYSCORE replied.
  unfoldable pub reap_expired_inflight : Bool → (Bytes → Call) → ℕ → ℕ → Db → Db
  reap_expired_inflight listed calls max now d =
      if listed
      then requeue_all calls max (range_by_score now ((view d).zsets inflight_key)) d
      else d

  -- The keys of one page of SCAN, drained one by one.
  unfoldable pub drain_keys : (Bytes → Call) → ℕ → List Bytes → Db → Db
  drain_keys calls max [] d = d
  drain_keys calls max (key ∷ keys) d =
      let w = trim_prefix key (processing_key []) in
      drain_keys calls max keys (applied (calls key) d (drain_dead_worker max key w d).1)

  -- reapDeadWorkers, over the pages that SCAN gives; `none` is an error, which ends the pass.
  unfoldable pub reap_dead_workers : (Bytes → Call) → ℕ → List (Option (List Bytes)) → Db → Db
  reap_dead_workers calls max [] d = d
  reap_dead_workers calls max (none ∷ pages) d = d
  reap_dead_workers calls max (some keys ∷ pages) d =
      reap_dead_workers calls max pages (drain_keys calls max keys d)

  -- One tick of runReaper: what the rest of the system has done to the store since the last one, and how
  -- the calls of both passes end.
  pub record Tick : Type 0 where
    pub before : Db → Db
    pub listed : Bool
    pub calls : Bytes → Call
    pub drains : Bytes → Call
    pub now : ℕ
    pub pages : List (Option (List Bytes))

  -- runReaper, over its ticks up to the end of the context.
  unfoldable pub run_reaper : ℕ → List Tick → Db → Db
  run_reaper max [] d = d
  run_reaper max (t ∷ ticks) d =
      let requeued = reap_expired_inflight t.listed t.calls max t.now (t.before d) in
      run_reaper max ticks (reap_dead_workers t.drains max t.pages requeued)
