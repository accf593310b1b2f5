-- ===== src/WorkQueue/Framework/Progress/Drained.antt =====
-- n rounds of runLoop that are steady take the first n tasks of the ready list to their end.
use mathlib.Core.Path.{subst}
use container_patterns.Common.{
  ◌≡◌, refl, sym, ap, ◌∙◌, true, false, Option, List, [], ◌∷◌, ◌++◌, append-nil, arith, Bytes, All,
  length,
}
use container_patterns.WorkQueue.Redis.{Redis}
use container_patterns.WorkQueue.Redis.Effects.{View, elem}
use container_patterns.WorkQueue.Redis.Effects.Laws.{elem_cons}
use container_patterns.WorkQueue.Keys.{ready_key, done_key, settle_pending_key, task_key}
use container_patterns.WorkQueue.Coordinator.{payload_field}
use container_patterns.WorkQueue.Framework.{Round, run_loop}
use container_patterns.WorkQueue.Framework.Progress.{HasPayload, Served}
use container_patterns.WorkQueue.Framework.Progress.Rounds.{IsSteady, round_serves, run_loop_nil}

-- The tasks `ids` are finished and off the ready list, which has `later` left; no other task has become
-- finished, and what is pending settlement stays so.
pub record Drained (ids later : List Bytes) (v v' : View) : Type 0 where
  pub ready : v'.lists ready_key ≡ later
  pub finished : All (λ id. v'.sets done_key id ≡ true) ids
  pub done : (j : Bytes) → v.sets done_key j ≡ true → v'.sets done_key j ≡ true
  pub others : (j : Bytes) → elem j ids ≡ false → v'.sets done_key j ≡ v.sets done_key j
  pub pending :
      (o : Bytes) → v.sets settle_pending_key o ≡ true → v'.sets settle_pending_key o ≡ true
  pub payload :
      (j : Bytes) → v'.hashes (task_key j) payload_field ≡ v.hashes (task_key j) payload_field

Drained-nil : (later : List Bytes) (v : View) → v.lists ready_key ≡ later → Drained [] later v v
Drained-nil later v e = record {
  ready = e;
  finished = tt;
  done = λ j d. d;
  others = λ j n. refl;
  pending = λ o d. d;
  payload = λ j. refl;
}

Drained-cons :
    {id : Bytes} {ids later : List Bytes} {u v w : View}
    → Served id (ids ++ later) u v
    → Drained ids later v w
    → Drained (id ∷ ids) later u w
Drained-cons {id} {ids} s d = record {
  ready = d.ready;
  finished = (d.done id s.finished, d.finished);
  done = λ j h. d.done j (s.done j h);
  others = λ j h. let (ne, out) = elem_cons j id ids h in d.others j out ∙ s.others j ne;
  pending = λ o h. d.pending o (s.pending o h);
  payload = λ j. d.payload j ∙ s.payload j;
}

HasPayload-kept :
    (u v : View) (ids : List Bytes)
    → ((j : Bytes) → v.hashes (task_key j) payload_field ≡ u.hashes (task_key j) payload_field)
    → All (HasPayload u) ids
    → All (HasPayload v) ids
HasPayload-kept u v [] same h = tt
HasPayload-kept u v (id ∷ ids) same ((ne, (e, paid)), h) =
    ((ne, (e, same id ∙ paid)), HasPayload-kept u v ids same h)

module _ (R : Redis) (order_id_of : Bytes → Option Bytes) where
  open R use {Db, view}

  -- As many steady rounds as there are `ids`, before further rounds.
  pub run_loop-append :
      (w : Bytes) (rounds more : List (Round R order_id_of)) (ids later : List Bytes) (d : Db)
      → All (IsSteady R order_id_of) rounds
      → length rounds ≡ length ids
      → (view d).lists ready_key ≡ ids ++ later
      → All (HasPayload (view d)) ids
      → (d' : Db) × (run_loop R order_id_of w (rounds ++ more) d ≡ run_loop R order_id_of w more d')
        × Drained ids later (view d) (view d')
  run_loop-append w [] more [] later d st n e paid = (d, refl, Drained-nil later (view d) e)
  run_loop-append w [] more (id ∷ ids) later d st n e paid = absurd (omega arith)
  run_loop-append w (r ∷ rounds) more [] later d st n e paid = absurd (omega arith)
  run_loop-append w (r ∷ rounds) more (id ∷ ids) later d (h, st) n e (p, paid) =
      let (d₁, run, served) =
        round_serves R order_id_of w id (ids ++ later) r (rounds ++ more) d h e p in
      let (d₂, rest, drained) =
        run_loop-append w rounds more ids later d₁ st (omega arith) served.ready
          (HasPayload-kept (view d) (view d₁) ids served.payload paid) in
      (d₂, run ∙ rest, Drained-cons served drained)

  -- A worker whose calls all reply, whose stage decides on every envelope and that is alone at the store
  -- takes the first n tasks of the ready list to their end in n rounds of runLoop, if each has an id
  -- and an envelope: all of them are finished then, the ready list has the later ones left, and no other
  -- task has become finished. A task that was finished before takes a round too.
  pub run_loop_drains :
      (w : Bytes) (rounds : List (Round R order_id_of)) (ids later : List Bytes) (d : Db)
      → All (IsSteady R order_id_of) rounds
      → length rounds ≡ length ids
      → (view d).lists ready_key ≡ ids ++ later
      → All (HasPayload (view d)) ids
      → Drained ids later (view d) (view (run_loop R order_id_of w rounds d))
  run_loop_drains w rounds ids later d st n e paid =
      let (d', run, drained) = run_loop-append w rounds [] ids later d st n e paid in
      let ended : d' ≡ run_loop R order_id_of w rounds d =
        sym (run ∙ run_loop_nil R order_id_of w d')
        ∙ ap (λ rs. run_loop R order_id_of w rs d) (append-nil rounds) in
      subst (λ x. Drained ids later (view d) (view x)) ended drained
