-- ===== src/WorkQueue/Framework/Tests.antt =====
-- Runs of one worker on the plain store, and the theorems at them.
use container_patterns.Common.{
  ℕ, ◌+◌, ◌≡◌, ◌≤◌, refl, true, false, Option, none, some, [], ◌∷◌, ◌++◌, arith, Bytes, bytes_eq,
  codes,
}
use container_patterns.WorkQueue.Redis.Plain.{plain, empty}
use container_patterns.WorkQueue.Redis.Effects.{View, score, keep_greater}
use container_patterns.WorkQueue.Redis.Effects.Laws.{score-zadd}
use container_patterns.WorkQueue.Keys.{inflight_key, done_key}
use container_patterns.WorkQueue.Coordinator.{replied, request_lost, reap_expired_inflight}
use container_patterns.WorkQueue.Framework.{TaskCalls, left_for_reaper, handle_task, beat}
use container_patterns.WorkQueue.Framework.Stage.{Poll, poll_stage, decision}
use container_patterns.WorkQueue.Framework.Shutdown.{Spares, Waits, handle_task_stops}
use container_patterns.WorkQueue.Framework.Heartbeat.{Untouched, beat_protects}

abbrev silent : Poll
silent = record { failed = false; done = false; late = false; cancelled = false }

abbrev told_to_stop : Poll
told_to_stop = record silent { cancelled = true }

-- The LREM of lremProcessing fails: it runs with context.Background(), but Redis does not answer.
abbrev calls : TaskCalls
calls = record { zadd = replied; hget_replies = true; lrem = request_lost; ack = replied }

abbrev no_order : Bytes → Option Bytes
no_order e = none

-- While the stage works, another task is finished, and the worker's heartbeat goes on.
abbrev meanwhile : View → View
meanwhile v =
    beat plain (codes "w") replied replied 30 107 (codes "t") (plain.sadd done_key (codes "u") v)

greater_kept : (s t : ℕ) → t ≤ keep_greater s (some t)
greater_kept s t = ground arith

meanwhile-Spares : Spares plain (codes "t") meanwhile
unfolding beat bytes_eq done_key inflight_key
meanwhile-Spares = record {
  unfinished = λ v. refl;
  later = λ v s e. (
    keep_greater 137 (score (codes "t") (v.zsets inflight_key)),
    score-zadd (codes "t") (codes "t") _ (v.zsets inflight_key),
    rw e (greater_kept 137 s),
  );
}

handle_task_stops_example :
    let (reply, d') =
      handle_task plain no_order
        (codes "w")
        calls
        30
        100
        (codes "t")
        (λ e. decision (poll_stage ((silent ∷ []) ++ told_to_stop ∷ [])))
        meanwhile
        empty in
    (reply ≡ left_for_reaper) × Waits plain (codes "t") (100 + 30) empty d'
handle_task_stops_example =
    handle_task_stops plain no_order (codes "w") calls 30 100 (codes "t") (silent ∷ []) told_to_stop
      [] meanwhile empty refl (refl, tt)
      (record { failed = refl; done = refl; late = refl; cancelled = refl }) meanwhile-Spares

beat_protects_example :
    let beaten = beat plain (codes "w") replied replied 30 100 (codes "t") empty in
    Untouched (codes "t") beaten (reap_expired_inflight plain true (λ id. replied) 5 129 beaten)
    × (s : ℕ) × (score (codes "t") (beaten.zsets inflight_key) ≡ some s)
    × (100 + 30 ≤ s)
beat_protects_example =
    beat_protects plain (codes "w") replied 30 100 (codes "t") empty true (λ id. replied) 5 129
      (λ e. cc) (omega arith)
