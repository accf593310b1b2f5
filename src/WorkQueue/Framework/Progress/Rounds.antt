-- ===== src/WorkQueue/Framework/Progress/Rounds.antt =====
-- One steady round of runLoop, at the head of the ready list.
use mathlib.Core.Path.{subst}
use container_patterns.Common.{
  ◌+◌, ◌≡◌, ◌≢◌, refl, sym, ap, ◌∙◌, inl, inr, Bool, true, false, Option, some, List, [], ◌∷◌,
  Bytes, Bool-cases,
}
use container_patterns.WorkQueue.Redis.{Redis}
use container_patterns.WorkQueue.Redis.Effects
use container_patterns.WorkQueue.Redis.Effects.{View, Value, text, number, update, remove_first}
use container_patterns.WorkQueue.Keys.{
  ready_key, inflight_key, done_key, settle_pending_key, task_key, processing_key,
}
use container_patterns.WorkQueue.Coordinator.{replied, payload_field}
use container_patterns.WorkQueue.Framework.{
  ack_tx, claim, extract_order_id, handle_task, Round, run_loop, lrem_processing,
}
use container_patterns.WorkQueue.Framework.Ack.{acknowledged, ack_tx_lem}
use container_patterns.WorkQueue.Framework.Progress.{
  taken, dropped, worked, HasPayload, Served, dropped-Served, worked-Served, worked_settles,
}

module _ (R : Redis) (order_id_of : Bytes → Option Bytes) where
  open R use {Db, view}

  -- A round without a shutdown or a failing call, with nobody else at the store, whose stage decides.
  pub record IsSteady (r : Round R order_id_of) : Type 0 where
    pub cancelled : r.cancelled ≡ false
    pub before : r.before ≡ (λ d. d)
    pub others : r.others ≡ (λ d. d)
    pub blmove : r.claim_calls.blmove ≡ replied
    pub sismember : r.claim_calls.sismember_replies ≡ true
    pub lrem : r.claim_calls.lrem ≡ replied
    pub zadd : r.task_calls.zadd ≡ replied
    pub hget : r.task_calls.hget_replies ≡ true
    pub ack : r.task_calls.ack ≡ replied
    pub decides : (e : Bytes) → (b : Bool) × (r.stage e ≡ some b)

  blmove_taken :
      (w id : Bytes) (ids : List Bytes) (d : Db)
      → (view d).lists ready_key ≡ id ∷ ids
      → view (R.blmove ready_key (processing_key w) d) ≡ taken w id ids (view d)
  blmove_taken w id ids d e =
      R.view-blmove ready_key (processing_key w) d
      ∙ ap (λ l. Effects.move_head ready_key (processing_key w) l (view d)) e

  -- A steady round at a finished task.
  round_drops :
      (w id : Bytes) (ids : List Bytes) (r : Round R order_id_of)
      (rounds : List (Round R order_id_of)) (d : Db)
      → IsSteady r
      → (view d).lists ready_key ≡ id ∷ ids
      → (view d).sets done_key id ≡ true
      → (d' : Db) × (run_loop R order_id_of w (r ∷ rounds) d ≡ run_loop R order_id_of w rounds d')
        × (view d' ≡ dropped w id ids (view d))
  round_drops w id ids r rounds d h e fin =
      let moved_db = R.blmove ready_key (processing_key w) d in
      let seen : (view moved_db).sets done_key id ≡ true =
        ap (λ v. v.sets done_key id) (blmove_taken w id ids d e) ∙ fin in
      (
        R.lrem (processing_key w) id moved_db,
        unfold run_loop claim lrem_processing in
            rw (h.cancelled, h.before, h.blmove, e, h.sismember, seen, h.lrem) refl,
        R.view-lrem (processing_key w) id moved_db
            ∙ ap (Effects.lrem (processing_key w) id) (blmove_taken w id ids d e),
      )

  -- A steady round at a task that is not finished.
  pub round_works :
      (w id envelope : Bytes) (ids : List Bytes) (success : Bool) (r : Round R order_id_of)
      (rounds : List (Round R order_id_of)) (d : Db)
      → IsSteady r
      → id ≢ []
      → (view d).lists ready_key ≡ id ∷ ids
      → (view d).sets done_key id ≡ false
      → (view d).hashes (task_key id) payload_field ≡ some (text envelope)
      → r.stage envelope ≡ some success
      → let order = extract_order_id R order_id_of envelope in
        (d' : Db) × (run_loop R order_id_of w (r ∷ rounds) d ≡ run_loop R order_id_of w rounds d')
        × (view d' ≡ worked w id order success (r.now + r.visibility) ids (view d))
  round_works w [] envelope ids success r rounds d h ne e new paid decided = absurd (ne refl)
  round_works w (c ∷ cs) envelope ids success r rounds d h ne e new paid decided =
      let id = c ∷ cs in
      let order = extract_order_id R order_id_of envelope in
      let moved_db = R.blmove ready_key (processing_key w) d in
      let started_db = R.zadd inflight_key (r.now + r.visibility) id moved_db in
      let shown : view started_db
          ≡ Effects.zadd inflight_key (r.now + r.visibility) id (taken w id ids (view d)) =
        R.view-zadd inflight_key (r.now + r.visibility) id moved_db
        ∙ ap (Effects.zadd inflight_key (r.now + r.visibility) id) (blmove_taken w id ids d e) in
      let unseen : (view moved_db).sets done_key id ≡ false =
        ap (λ v. v.sets done_key id) (blmove_taken w id ids d e) ∙ new in
      let stored : (view started_db).hashes (task_key id) payload_field ≡ some (text envelope) =
        ap (λ v. v.hashes (task_key id) payload_field) shown ∙ paid in
      (
        ack_tx R w id order success started_db,
        unfold run_loop claim handle_task in
            rw
              (
                h.cancelled, h.before, h.blmove, e, h.sismember, unseen, h.zadd, h.hget, stored,
                decided, h.others, h.ack,
              )
              refl,
        ack_tx_lem R w id order success started_db ∙ ap (acknowledged w id order success) shown,
      )

  -- A steady round takes the head of the ready list to its end, whether it was finished before or not.
  pub round_serves :
      (w id : Bytes) (ids : List Bytes) (r : Round R order_id_of)
      (rounds : List (Round R order_id_of)) (d : Db)
      → IsSteady r
      → (view d).lists ready_key ≡ id ∷ ids
      → HasPayload (view d) id
      → (d' : Db) × (run_loop R order_id_of w (r ∷ rounds) d ≡ run_loop R order_id_of w rounds d')
        × Served id ids (view d) (view d')
  round_serves w id ids r rounds d h e (ne, (envelope, paid)) =
      elim (Bool-cases ((view d).sets done_key id)) [
        | inl fin ↦
            let (d', run, shown) = round_drops w id ids r rounds d h e fin in
            (
              d',
              run,
              subst (Served id ids (view d)) (sym shown) (dropped-Served w id ids (view d) fin),
            )
        | inr new ↦
            let (b, decided) = h.decides envelope in
            let (d', run, shown) =
              round_works w id envelope ids b r rounds d h ne e new paid decided in
            (
              d',
              run,
              subst (Served id ids (view d)) (sym shown) (
                  worked-Served w id (extract_order_id R order_id_of envelope) b
                    (r.now + r.visibility) ids (view d)),
            )
      ]

  pub run_loop_nil : (w : Bytes) (d : Db) → run_loop R order_id_of w [] d ≡ d
  unfolding run_loop
  run_loop_nil w d = refl

  -- One more steady round, at the last task of the list, whose stage agrees.
  pub last_round :
      (w task order envelope : Bytes) (r : Round R order_id_of) (d : Db)
      → IsSteady r
      → ((e : Bytes) → r.stage e ≡ some true)
      → task ≢ []
      → order ≢ []
      → order_id_of envelope ≡ some order
      → (view d).lists ready_key ≡ task ∷ []
      → (view d).sets done_key task ≡ false
      → (view d).hashes (task_key task) payload_field ≡ some (text envelope)
      → let v = view (run_loop R order_id_of w (r ∷ []) d) in
        (v.sets done_key task ≡ true)
        × (v.sets settle_pending_key order ≡ true)
        × (v.lists ready_key ≡ [])
  last_round w task order envelope r d h agrees ne ne' reads e new paid =
      let (d', run, shown) =
        round_works w task envelope [] true r [] d h ne e new paid (agrees envelope) in
      let read : extract_order_id R order_id_of envelope ≡ order =
        rw (extract_order_id, reads) refl in
      let shown' : view d' ≡ worked w task order true (r.now + r.visibility) [] (view d) =
        shown ∙ ap (λ o. worked w task o true (r.now + r.visibility) [] (view d)) read in
      let served = worked-Served w task order true (r.now + r.visibility) [] (view d) in
      rw (run, run_loop_nil w d', shown')
        (
          served.finished,
          worked_settles w task order (r.now + r.visibility) [] (view d) ne',
          served.ready,
        )
