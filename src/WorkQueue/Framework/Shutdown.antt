-- ===== src/WorkQueue/Framework/Shutdown.antt =====
-- handleTask when SIGTERM arrives while the stage works: runStage sees the cancelled context itself.
use container_patterns.Common.{
  ℕ, ◌+◌, ◌≡◌, ◌≤◌, arith, refl, ap, ◌∙◌, Bool, true, false, Option, none, some, List, ◌∷◌, ◌++◌,
  Bytes, All,
}
use container_patterns.WorkQueue.Redis.{Redis}
use container_patterns.WorkQueue.Redis.Effects.{score}
use container_patterns.WorkQueue.Redis.Effects.Laws.{bytes_eq_refl, score-zadd}
use container_patterns.WorkQueue.Keys.{inflight_key, done_key}
use container_patterns.WorkQueue.Coordinator.{Call, replied, request_lost, reply_lost}
use container_patterns.WorkQueue.Framework.{
  TaskCalls, left_for_reaper, lrem_processing, with_envelope, envelope_read, handle_task,
}
use container_patterns.WorkQueue.Framework.Stage.{
  Poll, poll_stage, decision, IsQuiet, poll_stage_first,
}

-- The first round of polling that finds anything finds the shutdown, and no marker.
pub record IsStopped (p : Poll) : Type 0 where
  pub failed : p.failed ≡ false
  pub done : p.done ≡ false
  pub late : p.late ≡ false
  pub cancelled : p.cancelled ≡ true

stopped-decision :
    (quiet : List Poll) (p : Poll) (later : List Poll)
    → All IsQuiet quiet
    → IsStopped p
    → decision (poll_stage (quiet ++ p ∷ later)) ≡ none
stopped-decision quiet p later q s =
    ap decision (poll_stage_first quiet p later q (rw (s.failed, s.done, s.late, s.cancelled) refl))
    ∙ rw (s.failed, s.done, s.late) refl

module _ (R : Redis) where
  open R use {Db, view}

  lrem_processing_only :
      (w : Bytes) (call : Call) (id : Bytes) (d : Db)
      → ((view (lrem_processing R w call id d)).sets ≡ (view d).sets)
        × ((view (lrem_processing R w call id d)).zsets ≡ (view d).zsets)
  unfolding lrem_processing
  lrem_processing_only w replied id d = rw R.view-lrem (refl, refl)
  lrem_processing_only w request_lost id d = (refl, refl)
  lrem_processing_only w reply_lost id d = rw R.view-lrem (refl, refl)

  -- What the rest of the system does while the stage works may be anything that neither finishes the task
  -- nor takes its deadline back; the heartbeats of its worker are of that kind.
  pub record Spares (id : Bytes) (others : Db → Db) : Type 0 where
    pub unfinished : (d : Db) → (view (others d)).sets done_key id ≡ (view d).sets done_key id
    pub later :
        (d : Db) (s : ℕ)
        → score id ((view d).zsets inflight_key) ≡ some s
        → (s' : ℕ) × (score id ((view (others d)).zsets inflight_key) ≡ some s') × (s ≤ s')

  -- The task waits for the reaper, and is no more finished than before.
  pub record Waits (id : Bytes) (deadline : ℕ) (d d' : Db) : Type 0 where
    pub unfinished : (view d').sets done_key id ≡ (view d).sets done_key id
    pub score_at : ℕ
    pub in_flight : score id ((view d').zsets inflight_key) ≡ some score_at
    pub after : deadline ≤ score_at

  Waits-lrem :
      (w : Bytes) (call : Call) (id : Bytes) (deadline : ℕ) (d d' : Db)
      → Waits id deadline d d'
      → Waits id deadline d (lrem_processing R w call id d')
  Waits-lrem w call id deadline d d' h =
      let (sets, zsets) = lrem_processing_only w call id d' in
      record {
        unfinished = ap (λ f. f done_key id) sets ∙ h.unfinished;
        score_at = h.score_at;
        in_flight = ap (λ f. score id (f inflight_key)) zsets ∙ h.in_flight;
        after = h.after;
      }

  Waits-others :
      (id : Bytes) (others : Db → Db) (deadline : ℕ) (d d' : Db)
      → Spares id others
      → Waits id deadline d d'
      → Waits id deadline d (others d')
  Waits-others id others deadline d d' spares h =
      let (s, at, more) = spares.later d' h.score_at h.in_flight in
      record {
        unfinished = spares.unfinished d' ∙ h.unfinished;
        score_at = s;
        in_flight = at;
        after = omega (arith, more, h.after);
      }

  put-Waits :
      (id : Bytes) (deadline : ℕ) (d : Db) → Waits id deadline d (R.zadd inflight_key deadline id d)
  put-Waits id deadline d = record {
    unfinished = rw R.view-zadd refl;
    score_at = deadline;
    in_flight = rw (R.view-zadd, bytes_eq_refl inflight_key, score-zadd, bytes_eq_refl id) refl;
    after = omega arith;
  }

  module _ (order_id_of : Bytes → Option Bytes) where
    undecided :
        (w : Bytes) (calls : TaskCalls) (id : Bytes) (stage : Bytes → Option Bool)
        (others : Db → Db) (envelope : Option Bytes) (deadline : ℕ) (d d' : Db)
        → ((e : Bytes) → stage e ≡ none)
        → Spares id others
        → Waits id deadline d d'
        → let (reply, left) = with_envelope R order_id_of w calls id stage others envelope d' in
          (reply ≡ left_for_reaper) × Waits id deadline d left
    undecided w calls id stage others none deadline d d' h spares waits =
        (refl, Waits-lrem w calls.lrem id deadline d d' waits)
    undecided w calls id stage others (some e) deadline d d' h spares waits = rw (h e) (
      refl,
      Waits-lrem w calls.lrem id deadline d (others d')
          (Waits-others id others deadline d d' spares waits),
    )

    -- A worker that is told to shut down while the stage works abandons its task: once ZADD has answered,
    -- if the polling finds the shutdown before a marker and before the time limit, and if the other
    -- processes and the heartbeat, meanwhile, do not finish the task and do not take its deadline back,
    -- then handleTask ends without an ack, the task is in the done set only if it was there before, and
    -- it is in flight with a deadline that is no earlier than the one of its ZADD.
    pub handle_task_stops :
        (w : Bytes) (calls : TaskCalls) (visibility now : ℕ) (id : Bytes) (quiet : List Poll)
        (p : Poll) (later : List Poll) (others : Db → Db) (d : Db)
        → calls.zadd ≡ replied
        → All IsQuiet quiet
        → IsStopped p
        → Spares id others
        → let stage = λ (e : Bytes). decision (poll_stage (quiet ++ p ∷ later)) in
          let (reply, d') = handle_task R order_id_of w calls visibility now id stage others d in
          (reply ≡ left_for_reaper) × Waits id (now + visibility) d d'
    unfolding handle_task
    handle_task_stops w calls visibility now id quiet p later others d ran q s spares =
        let d₁ = R.zadd inflight_key (now + visibility) id d in
        rw ran (
          undecided w calls id _ others (envelope_read R order_id_of calls id d₁) (now + visibility)
            d d₁ (λ e. stopped-decision quiet p later q s) spares
            (put-Waits id (now + visibility) d))
