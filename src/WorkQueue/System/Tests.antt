-- ===== src/WorkQueue/System/Tests.antt =====
-- Runs of the whole queue on the plain store, and the theorems at them.
use container_patterns.Common.{
  ◌≡◌, refl, true, false, Option, none, some, [], ◌∷◌, Bytes, bytes_eq, codes, if◌then◌else◌,
}
use container_patterns.WorkQueue.Redis.Effects.{View, text, elem, update, score}
use container_patterns.WorkQueue.Keys.{ready_key, inflight_key, done_key, processing_key}
use container_patterns.WorkQueue.Tracking.{IsTracked, Counted}
use container_patterns.WorkQueue.Redis.Plain.{plain, empty}
use container_patterns.WorkQueue.Coordinator.{
  replied, payload_field, still_alive, requeue_expired, drain_dead_worker, Tick, run_reaper,
}
use container_patterns.WorkQueue.Framework.{
  ClaimCalls, TaskCalls, Round, claim, claim_failed, run_loop, ack_tx,
}
use container_patterns.WorkQueue.System.{
  idle, moved, claimed, started, System, blmove_replies, found_new, zadd_runs, acks, crashes, Reach,
  here, later,
}
use container_patterns.WorkQueue.System.Anchored.{IsAnchored, ready}
use container_patterns.WorkQueue.System.Safety.{Reach-IsTracked}
use container_patterns.WorkQueue.System.Worker.{IsServed, run_loop-Runs}
use container_patterns.WorkQueue.System.Runs.{Runs}
use container_patterns.WorkQueue.System.Loops.{IsFair, Reached, run_reaper-Reached}
use container_patterns.WorkQueue.System.Stranded.{claim_strands}

-- One task is ready, no counter is there yet, and every worker lives.
abbrev one_ready : View
one_ready = record empty {
  lists = update (λ k. []) ready_key (codes "t" ∷ []);
  strings = λ k. true;
}

abbrev begun : System plain
begun = record { db = one_ready; phase = λ w. idle }

-- The worker "a" is given the task, and crashes.
abbrev given : System plain
given = record {
  db = plain.blmove ready_key (processing_key (codes "a")) one_ready;
  phase = update begun.phase (codes "a") (moved (codes "t"));
}

abbrev crashed : System plain
crashed = record given { phase = update given.phase (codes "a") idle }

begun_ready : one_ready.lists ready_key ≡ codes "t" ∷ []
unfolding ready_key bytes_eq
begun_ready = refl

begun-Counted : Counted one_ready
begun-Counted id = (1, refl)

begun_elem : elem (codes "t") (one_ready.lists ready_key) ≡ true
unfolding ready_key bytes_eq elem
begun_elem = refl

Reach-IsTracked_example :
    IsTracked crashed.db (codes "t")
    × IsAnchored crashed.phase crashed.db (codes "t")
    × Counted crashed.db
Reach-IsTracked_example =
    Reach-IsTracked plain {s = begun} {t = crashed} (codes "t")
      (later (later here (blmove_replies (codes "a") (codes "t") [] refl begun_ready))
        (crashes (codes "a")))
      begun-Counted (ready begun_elem)

abbrev no_order : Bytes → Option Bytes
no_order e = none

abbrev all_reply : TaskCalls
all_reply = record { zadd = replied; hget_replies = true; lrem = replied; ack = replied }

-- Two tasks are ready, and both have an envelope.
abbrev two_ready : View
two_ready = record empty {
  lists = update (λ k. []) ready_key (codes "u" ∷ codes "t" ∷ []);
  hashes = λ k f. if bytes_eq f payload_field then some (text (codes "e")) else none;
  strings = λ k. true;
}

abbrev at_rest : System plain
at_rest = record { db = two_ready; phase = λ w. idle }

-- Another worker, "b", takes the first task and puts it in flight.
abbrev b_takes : View → View
b_takes v =
    plain.zadd inflight_key 37 (codes "u") (plain.blmove ready_key (processing_key (codes "b")) v)

-- It finishes its task.
abbrev b_acks : View → View
b_acks v = ack_tx plain (codes "b") (codes "u") (codes "o") true v

two_ready_list : two_ready.lists ready_key ≡ codes "u" ∷ codes "t" ∷ []
unfolding ready_key bytes_eq
two_ready_list = refl

abbrev b_works : System plain
b_works = record {
  db = b_takes two_ready;
  phase =
      update
        (update (update (λ w. idle) (codes "b") (moved (codes "u"))) (codes "b")
          (claimed (codes "u")))
        (codes "b") (started (codes "u"));
}

at_rest-b_works : Reach plain at_rest b_works
unfolding bytes_eq ready_key
at_rest-b_works =
    later
      (later
        (later here (blmove_replies (codes "b") (codes "u") (codes "t" ∷ []) refl two_ready_list))
        (found_new (codes "b") (codes "u") refl refl))
      (zadd_runs (codes "b") (codes "u") 37 refl)

abbrev one_round : Round plain no_order
one_round = record {
  cancelled = false;
  cancelled_after = false;
  before = b_takes;
  others = b_acks;
  claim_calls = record { blmove = replied; sismember_replies = true; lrem = replied };
  task_calls = all_reply;
  visibility = 30;
  now = 7;
  stage = λ e. some true;
}

one_round-IsServed : IsServed plain no_order (codes "a") (one_round ∷ []) at_rest
unfolding IsServed claim bytes_eq ready_key processing_key done_key
one_round-IsServed = (
  record { last = b_works; run = at_rest-b_works; at = refl; stands = refl },
  (
    record {
      last = _;
      run = later here (acks (codes "b") (codes "u") (codes "o") true replied refl);
      at = refl;
      stands = refl;
    },
    tt,
  ),
)

run_loop-Runs_example :
    Runs plain
      (codes "a")
      at_rest
      idle
      (run_loop plain no_order (codes "a") (one_round ∷ []) two_ready)
run_loop-Runs_example =
    run_loop-Runs plain no_order (codes "a") (one_round ∷ []) at_rest refl one_round-IsServed

abbrev tick_behind : (View → View) → Tick plain
tick_behind before = record {
  before = before;
  listed = true;
  calls = λ id. replied;
  drains = λ k. replied;
  now = 9;
  pages = some (processing_key (codes "b") ∷ []) ∷ [];
}

-- Worker "b" takes a task before the first tick, and finishes it before the second.
two_ticks-IsFair : IsFair plain 5 (tick_behind b_takes ∷ tick_behind b_acks ∷ []) at_rest
unfolding IsFair bytes_eq
two_ticks-IsFair = (
  record { last = b_works; run = at_rest-b_works; at = refl },
  (some (codes "b" ∷ []) ∷ [], refl),
  (
    record {
      last = _;
      run = later here (acks (codes "b") (codes "u") (codes "o") true replied refl);
      at = refl;
    },
    (some (codes "b" ∷ []) ∷ [], refl),
    tt,
  ),
)

run_reaper-Reached_example :
    Reached plain at_rest
      (run_reaper plain 5 (tick_behind b_takes ∷ tick_behind b_acks ∷ []) two_ready)
run_reaper-Reached_example =
    run_reaper-Reached plain 5 (tick_behind b_takes ∷ tick_behind b_acks ∷ []) at_rest
      two_ticks-IsFair

claim_strands_example :
    let calls : ClaimCalls = record {
      blmove = replied;
      sismember_replies = false;
      lrem = replied;
    } in
    let (reply, d') = claim plain (codes "a") calls one_ready in
    (reply ≡ claim_failed)
    × (d'.lists ready_key ≡ [])
    × (elem (codes "t") (d'.lists (processing_key (codes "a"))) ≡ true)
    × (drain_dead_worker plain 5 (processing_key (codes "a")) (codes "a") d' ≡ (still_alive, d'))
    × (requeue_expired plain 5 (codes "t") d' ≡ (some 0, d'))
unfolding score
claim_strands_example =
    claim_strands plain (codes "a")
      (record { blmove = replied; sismember_replies = false; lrem = replied }) (codes "t") [] 5
      one_ready begun_ready refl refl refl refl
