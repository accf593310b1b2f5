-- ===== src/WorkQueue/System/Worker.antt =====
-- handleTask and runLoop take the steps of the system.
use mathlib.Core.Path.{subst}
use container_patterns.Common.{
  ◌+◌, ◌≡◌, ◌∙◌, inl, inr, Bool, Option, none, some, List, [], ◌∷◌, Bytes, Bool-cases,
  if◌then◌else◌,
}
use container_patterns.WorkQueue.Redis.{Redis}
use container_patterns.WorkQueue.Keys.{inflight_key}
use container_patterns.WorkQueue.Coordinator.{
  Call, replied, request_lost, reply_lost, applied, succeeded,
}
use container_patterns.WorkQueue.Framework.{
  abandoned, ClaimReply, nothing, claim_failed, TaskCalls, lrem_processing, claim, extract_order_id,
  after_stage, with_envelope, envelope_read, handle_task, Round, after_claim, run_loop,
}
use container_patterns.WorkQueue.System.{
  Phase, idle, claimed, started, System, zadd_runs, gives_up, acks, crashes, here, later,
}
use container_patterns.WorkQueue.System.Runs.{
  phase_of, Runs, updated, Runs-after, Runs-here, stand, Moves, claim-Moves,
}

module _ (R : Redis) where
  open R use {Db}

  -- From where the system stands, its processes come to a store `f` of the present one, with this worker
  -- where it was: any processes, in any phases, and with as many steps as they like.
  abbrev pub Meanwhile : Bytes → (Db → Db) → System R → Type 0
  Meanwhile w f t = Runs R w t (t.phase w) (f t.db)

  module _ (order_id_of : Bytes → Option Bytes) where
    -- What is asked of the other processes from a place of the loop on: wherever the code lets them
    -- act, Meanwhile at the system as it stands there, and `rest` at the system behind it.
    abbrev pub AtStage :
        Bytes → (System R → Type 0) → Round R order_id_of → Bytes → Option Bytes → System R → Type 0
    AtStage w rest r id none t =
        rest (stand R w idle (lrem_processing R w r.task_calls.lrem id t.db) t)
    AtStage w rest r id (some envelope) t =
        (m : Meanwhile w r.others t) × rest (
          stand R w idle
            (after_stage R order_id_of w r.task_calls id envelope (r.stage envelope) m.last.db).1
            m.last)

    -- ZADD must not fail before it runs.
    abbrev pub AtZadd :
        Bytes → (System R → Type 0) → Round R order_id_of → Bytes → Call → System R → Type 0
    AtZadd w rest r id replied t =
        AtStage w rest r id (envelope_read R order_id_of r.task_calls id t.db) t
    AtZadd w rest r id request_lost t = ⊥
    AtZadd w rest r id reply_lost t =
        rest (stand R w idle (lrem_processing R w r.task_calls.lrem id t.db) t)

    abbrev pub AtClaim :
        Bytes → (System R → Type 0) → Round R order_id_of → ClaimReply → System R → Type 0
    AtClaim w rest r claim_failed t = if r.cancelled_after then Unit else rest t
    AtClaim w rest r nothing t = rest t
    AtClaim w rest r (ClaimReply.claimed []) t = rest (stand R w idle t.db t)
    AtClaim w rest r (ClaimReply.claimed (c ∷ cs)) t =
        AtZadd w rest r (c ∷ cs) r.task_calls.zadd (
          stand R w (started (c ∷ cs)) (R.zadd inflight_key (r.now + r.visibility) (c ∷ cs) t.db) t)

    unfoldable pub IsServed : Bytes → List (Round R order_id_of) → System R → Type 0
    IsServed w [] s = Unit
    IsServed w (r ∷ rounds) s =
        if r.cancelled
        then Unit
        else ((m : Meanwhile w r.before s) × (let (reply, d) = claim R w r.claim_calls m.last.db in
              AtClaim w (IsServed w rounds) r reply (stand R w (phase_of reply) d m.last)))

    -- The rest of the loop is a run, where `rest` holds.
    abbrev Continues : Bytes → (System R → Type 0) → (Db → Db) → Type 0
    Continues w rest again =
        (u : System R) → u.phase w ≡ idle → rest u → Runs R w u idle (again u.db)

    after_stage-Moves :
        (w : Bytes) (calls : TaskCalls) (id envelope : Bytes) (decided : Option Bool) (t : System R)
        → t.phase w ≡ started id
        → Moves R w t idle (after_stage R order_id_of w calls id envelope decided t.db).1
    after_stage-Moves w calls id envelope none t e = later here (gives_up w id calls.lrem e)
    after_stage-Moves w calls id envelope (some success) t e =
        later here (acks w id (extract_order_id R order_id_of envelope) success calls.ack e)

    module _ (w : Bytes) (rest : System R → Type 0) (again : Db → Db)
        (recur : Continues w rest again) (r : Round R order_id_of) where
      given_up :
          (id : Bytes) (t : System R)
          → t.phase w ≡ started id
          → rest (stand R w idle (lrem_processing R w r.task_calls.lrem id t.db) t)
          → Runs R w t idle (again (lrem_processing R w r.task_calls.lrem id t.db))
      given_up id t e h = Runs-after R (later here (gives_up w id r.task_calls.lrem e)) (
          recur (stand R w idle (lrem_processing R w r.task_calls.lrem id t.db) t)
            (updated R t.phase w idle) h)

      with_envelope-Runs :
          (id : Bytes) (o : Option Bytes) (t : System R)
          → t.phase w ≡ started id
          → AtStage w rest r id o t
          → Runs R w t idle
              (again (with_envelope R order_id_of w r.task_calls id r.stage r.others o t.db).1)
      with_envelope-Runs id none t e h = given_up id t e h
      with_envelope-Runs id (some envelope) t e (m, h) =
          subst (λ d. Runs R w t idle (again (ended d))) m.at
            (Runs-after R m.run (
              Runs-after R
                (after_stage-Moves w r.task_calls id envelope (r.stage envelope) m.last
                  (m.stands ∙ e))
                (recur (stand R w idle (ended m.last.db) m.last) (updated R m.last.phase w idle)
                  h)))
        where
          ended : Db → Db
          ended d = (after_stage R order_id_of w r.task_calls id envelope (r.stage envelope) d).1

      -- handleTask, and the rest of the loop.
      handle_task-Runs :
          (id : Bytes) (s : System R)
          → s.phase w ≡ claimed id
          → AtZadd w rest r id r.task_calls.zadd
              (stand R w (started id) (R.zadd inflight_key (r.now + r.visibility) id s.db) s)
          → Runs R w s idle (
              again
                (handle_task R order_id_of w r.task_calls r.visibility r.now id r.stage r.others
                  s.db).1)
      unfolding handle_task
      handle_task-Runs id s e h = split r.task_calls.zadd h
        where
          put : System R
          put = stand R w (started id) (R.zadd inflight_key (r.now + r.visibility) id s.db) s

          begun : (q : Phase) {d : Db} → Runs R w put q d → Runs R w s q d
          begun q k = Runs-after R (later here (zadd_runs w id (r.now + r.visibility) e)) k

          split :
              (c : Call)
              → AtZadd w rest r id c put
              → Runs R w s idle (
                  again
                    (if succeeded c
                      then with_envelope R order_id_of w r.task_calls id r.stage r.others
                          (envelope_read R order_id_of r.task_calls id (applied c s.db put.db))
                          (applied c s.db put.db)
                      else (
                        abandoned,
                        lrem_processing R w r.task_calls.lrem id (applied c s.db put.db),
                      )).1)
          split replied k = begun idle (
              with_envelope-Runs id (envelope_read R order_id_of r.task_calls id put.db) put
                (updated R s.phase w (started id)) k)
          split request_lost k = absurd k
          split reply_lost k = begun idle (given_up id put (updated R s.phase w (started id)) k)

      after_claim-Runs :
          (reply : ClaimReply) (t : System R)
          → t.phase w ≡ phase_of reply
          → AtClaim w rest r reply t
          → Runs R w t idle (after_claim R order_id_of w r again (reply, t.db))
      after_claim-Runs claim_failed t e h = elim (Bool-cases r.cancelled_after) [
        | inl stop ↦ rw stop (Runs-here R t e)
        | inr retry ↦ rw retry (recur t e (rw retry at h))
      ]
      after_claim-Runs nothing t e h = recur t e h
      after_claim-Runs (ClaimReply.claimed []) t e h =
          Runs-after R (later here (crashes w))
            (recur (stand R w idle t.db t) (updated R t.phase w idle) h)
      after_claim-Runs (ClaimReply.claimed (c ∷ cs)) t e h = handle_task-Runs (c ∷ cs) t e h

    -- runLoop takes the steps of the system. If no ZADD of handleTask fails before it runs, and if, from
    -- where the system stands each time, the processes can come to the stores that this worker finds
    -- before each claim and behind each stage, then, whatever its calls come to, the store that the loop
    -- leaves is one that the system reaches, with this worker idle.
    pub run_loop-Runs :
        (w : Bytes) (rounds : List (Round R order_id_of)) (s : System R)
        → s.phase w ≡ idle
        → IsServed w rounds s
        → Runs R w s idle (run_loop R order_id_of w rounds s.db)
    unfolding run_loop IsServed
    run_loop-Runs w [] s e h = Runs-here R s e
    run_loop-Runs w (r ∷ rounds) s e h = elim (Bool-cases r.cancelled) [
      | inl stop ↦ rw stop (Runs-here R s e)
      | inr run ↦ rw run (rest (λ u f k. run_loop-Runs w rounds u f k) (rw run at h))
    ]
      where
        next : Db → Db
        next d =
            after_claim R order_id_of w r (run_loop R order_id_of w rounds)
              (claim R w r.claim_calls d)

        rest :
            Continues w (IsServed w rounds) (run_loop R order_id_of w rounds)
            → (m : Meanwhile w r.before s) × (let (reply, d) = claim R w r.claim_calls m.last.db in
                AtClaim w (IsServed w rounds) r reply (stand R w (phase_of reply) d m.last))
            → Runs R w s idle (next (r.before s.db))
        rest recur (m, k) =
            let (reply, d) = claim R w r.claim_calls m.last.db in
            subst (λ d. Runs R w s idle (next d)) m.at
              (Runs-after R m.run (
                Runs-after R (claim-Moves R w r.claim_calls m.last (m.stands ∙ e)) (
                  after_claim-Runs w (IsServed w rounds) (run_loop R order_id_of w rounds) recur r
                    reply (stand R w (phase_of reply) d m.last)
                    (updated R m.last.phase w (phase_of reply)) k)))
