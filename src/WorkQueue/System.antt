-- ===== src/WorkQueue/System.antt =====
-- The whole queue: workers (services/workqueue-framework/main.go), the coordinator's handlers and its
-- reaper (services/workqueue-coordinator), all on one Redis. Each call of Redis is a step of its own,
-- and the steps of all processes interleave in any order.
pub mod Anchored
pub mod Views
pub mod Commands
pub mod Safety
pub mod Runs
pub mod Worker
pub mod Stranded
pub mod Loops
mod Tests
use container_patterns.Common.{
  ℕ, ◌≡◌, ◌≢◌, Bool, true, false, Option, some, List, [], ◌∷◌, Bytes, bytes_eq,
}
use container_patterns.WorkQueue.Redis.{Redis}
use container_patterns.WorkQueue.Redis.Effects.{View, update}
use container_patterns.WorkQueue.Keys.{ready_key, inflight_key, done_key, task_key, processing_key}
use container_patterns.WorkQueue.Coordinator.{
  Call, replied, request_lost, applied, attempt_field, enqueue_tx, requeue_expired,
  drain_dead_worker,
}
use container_patterns.WorkQueue.Framework.{lrem_processing, ack_tx, beat}

-- Where a worker stands in claim and handleTask: BLMOVE has given it a task; the task is found done, to
-- be dropped; claim has returned it; ZADD has put it in flight.
pub data Phase : Type 0 where
  idle : Phase
  moved : Bytes → Phase
  dropping : Bytes → Phase
  claimed : Bytes → Phase
  started : Bytes → Phase

-- Other clients and the expiry of keys: they leave alone what the queue works with.
pub record Elsewhere (v v' : View) : Type 0 where
  pub lists : (k : Bytes) → v'.lists k ≡ v.lists k
  pub zsets : (k : Bytes) → v'.zsets k ≡ v.zsets k
  pub done : (id : Bytes) → v'.sets done_key id ≡ v.sets done_key id
  pub attempts :
      (id : Bytes) → v'.hashes (task_key id) attempt_field ≡ v.hashes (task_key id) attempt_field

module _ (R : Redis) where
  open R use {Db, view, blmove, zadd}

  pub record System : Type 0 where
    pub db : Db
    pub phase : Bytes → Phase

  -- One step of one process. A call may fail before or after it took effect; only the ZADD of
  -- handleTask is taken not to fail before.
  pub data Step (s : System) : System → Type 0 where
    blmove_replies :
        (w id : Bytes) (ids : List Bytes)
        → s.phase w ≡ idle
        → (view s.db).lists ready_key ≡ id ∷ ids
        → Step s (record {
          db = blmove ready_key (processing_key w) s.db;
          phase = update s.phase w (moved id);
        })
    blmove_fails :
        (w : Bytes) (call : Call)
        → s.phase w ≡ idle
        → Step s (record s { db = applied call s.db (blmove ready_key (processing_key w) s.db) })
    found_done :
        (w id : Bytes)
        → s.phase w ≡ moved id
        → (view s.db).sets done_key id ≡ true
        → Step s (record s { phase = update s.phase w (dropping id) })
    found_new :
        (w id : Bytes)
        → s.phase w ≡ moved id
        → (view s.db).sets done_key id ≡ false
        → Step s (record s { phase = update s.phase w (claimed id) })
    sismember_fails :
        (w id : Bytes) → s.phase w ≡ moved id → Step s (record s { phase = update s.phase w idle })
    drops :
        (w id : Bytes) (call : Call)
        → s.phase w ≡ dropping id
        → Step s (record { db = lrem_processing R w call id s.db; phase = update s.phase w idle })
    zadd_runs :
        (w id : Bytes) (deadline : ℕ)
        → s.phase w ≡ claimed id
        → Step s (record {
          db = zadd inflight_key deadline id s.db;
          phase = update s.phase w (started id);
        })
    gives_up :
        (w id : Bytes) (call : Call)
        → s.phase w ≡ started id
        → Step s (record { db = lrem_processing R w call id s.db; phase = update s.phase w idle })
    acks :
        (w id order_id : Bytes) (success : Bool) (call : Call)
        → s.phase w ≡ started id
        → Step s (record {
          db = applied call s.db (ack_tx R w id order_id success s.db);
          phase = update s.phase w idle;
        })
    crashes : (w : Bytes) → Step s (record s { phase = update s.phase w idle })
    beats :
        (w : Bytes) (set_call zadd_call : Call) (visibility now : ℕ) (current : Bytes)
        → Step s (record s { db = beat R w set_call zadd_call visibility now current s.db })
    enqueues :
        (call : Call) (task_id order_id enqueued_at envelope : Bytes)
        → Step s (record s {
          db = applied call s.db (enqueue_tx R task_id order_id enqueued_at envelope s.db);
        })
    requeues :
        (call : Call) (max : ℕ) (id : Bytes)
        → Step s (record s { db = applied call s.db (requeue_expired R max id s.db).1 })
    drains :
        (call : Call) (max : ℕ) (w : Bytes)
        → Step s (record s {
          db = applied call s.db (drain_dead_worker R max (processing_key w) w s.db).1;
        })
    elsewhere : (d : Db) → Elsewhere (view s.db) (view d) → Step s (record s { db = d })

  -- Any number of steps.
  pub data Reach (s : System) : System → Type 0 where
    here : Reach s s
    later : {t u : System} → Reach s t → Step t u → Reach s u
