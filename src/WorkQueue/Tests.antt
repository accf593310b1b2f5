-- ===== src/WorkQueue/Tests.antt =====
-- Runs of the queue on the plain store, and each theorem at an input that meets its hypotheses.
use container_patterns.Common.{
  ◌≡◌, refl, true, false, Option, some, [], ◌∷◌, arith, Bytes, bytes_eq, codes, length, All,
  if◌then◌else◌,
}
use container_patterns.WorkQueue.Redis.Plain.{plain, empty}
use container_patterns.WorkQueue.Redis.Effects.{View, text, number, elem, score, remove_first}
use container_patterns.WorkQueue.Keys.{ready_key, dead_key, done_key, task_key, processing_key}
use container_patterns.WorkQueue.Tracking.{
  IsTracked, in_ready, in_dead, in_processing, in_flight, is_done, IsHeld, Counted,
}
use container_patterns.WorkQueue.Coordinator.{
  replied, request_lost, status_field, requeue_expired, drain_dead_worker, drained,
}
use container_patterns.WorkQueue.Coordinator.Reaper.{drain_dead_worker_lem}
use container_patterns.WorkQueue.Coordinator.Drain.{IsPushed}
use container_patterns.WorkQueue.Framework.{TaskCalls, abandoned, handle_task, beat}
use container_patterns.WorkQueue.Framework.Stage.{no_files, setup, run_setup, ready_means_whole}
use container_patterns.WorkQueue.Framework.Races.{handle_task_loses, beat_after_ack}

-- Every task's next attempt is the fifth, and the task "t" is in flight.
abbrev flying : View
flying = record empty { zsets = λ k. (codes "t", 7) ∷ []; hashes = λ k f. some (number 4) }

flying-Counted : Counted flying
flying-Counted id = (5, refl)

-- The worker "w" is dead and its list has one task.
abbrev stranded : View
stranded = record flying {
  lists = λ k. if bytes_eq k (processing_key (codes "w")) then codes "t" ∷ [] else [];
}

drain_dead_worker_lem_example :
    let (reply, d') = drain_dead_worker plain 5 (processing_key (codes "w")) (codes "w") stranded in
    let ids = stranded.lists (processing_key (codes "w")) in
    (reply ≡ drained (length ids))
    × (d'.lists (processing_key (codes "w")) ≡ [])
    × All (IsPushed d') ids
drain_dead_worker_lem_example =
    drain_dead_worker_lem plain 5 (codes "w") stranded flying-Counted refl

-- JSON that is its order id, and an envelope that is its payload.
abbrev whole_body : Bytes → Option Bytes
whole_body body = some body

abbrev zadd_fails : TaskCalls
zadd_fails = record { zadd = request_lost; hget_replies = true; lrem = replied; ack = replied }

-- The task "t" has just been claimed by "w", and is nowhere else.
abbrev just_claimed : View
just_claimed = record empty {
  lists = λ k. if bytes_eq k (processing_key (codes "w")) then codes "t" ∷ [] else [];
}

just_claimed_alone : ¬ IsHeld (codes "w") just_claimed (codes "t")
unfolding elem bytes_eq ready_key dead_key processing_key score
just_claimed_alone (in_ready h) = cc
just_claimed_alone (in_dead h) = cc
just_claimed_alone (in_flight s h) = cc
just_claimed_alone (is_done h) = cc
just_claimed_alone (in_processing u h) = ground arith

handle_task_loses_example :
    let (reply, d') =
      handle_task plain whole_body
        (codes "w")
        zadd_fails
        30
        100
        (codes "t")
        (λ e. some true)
        (λ d. d)
        just_claimed in
    (reply ≡ abandoned) × (¬ IsTracked d' (codes "t"))
unfolding elem bytes_eq processing_key remove_first
handle_task_loses_example =
    handle_task_loses plain whole_body (codes "w") zadd_fails 30 100 (codes "t") (λ e. some true)
      (λ d. d) just_claimed refl refl just_claimed_alone refl

-- "t" is done, and its attempts are used up.
abbrev finished : View
finished = record flying { sets = λ k m. true; zsets = λ k. [] }

beat_after_ack_example :
    let v =
      (requeue_expired plain 4
        (codes "t")
        (beat plain (codes "w") replied replied 30 100 (codes "t") finished)).1 in
    (v.sets done_key (codes "t") ≡ true)
    × (elem (codes "t") (v.lists dead_key) ≡ true)
    × (v.hashes (task_key (codes "t")) status_field ≡ some (text (codes "dead")))
beat_after_ack_example =
    beat_after_ack plain (codes "w") 30 100 4 5 (codes "t") finished (cc) refl refl (omega arith)

ready_means_whole_example :
    let dir = run_setup (codes "{}") 7 (setup 1) (record no_files { error_failed = true }) in
    (dir.order_json ≡ some (codes "{}")) × (dir.response_done ≡ false) × (dir.error_failed ≡ false)
unfolding run_setup
ready_means_whole_example =
    ready_means_whole (codes "{}") 1 6 (record no_files { error_failed = true }) refl
