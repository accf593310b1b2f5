-- ===== src/WorkQueue/Framework/Stage.antt =====
-- The file handshake of services/workqueue-framework/main.go: runStage, writeFileAtomic and touch,
-- on the files of one task directory.
use container_patterns.Common.{
  ℕ, zero, suc, ◌≡◌, refl, Bool, true, false, ◌||◌, Option, none, some, List, [], ◌∷◌, arith, Bytes,
  if◌then◌else◌, take, All, ◌++◌,
}

-- The files of /work/tasks/<id>; a file that is there has its contents.
pub record TaskDir : Type 0 where
  pub in_dir : Bool
  pub out_dir : Bool
  pub order_tmp : Option Bytes
  pub order_json : Option Bytes
  pub request_ready : Bool
  pub response_done : Bool
  pub error_failed : Bool

abbrev pub no_files : TaskDir
no_files = record {
  in_dir = false;
  out_dir = false;
  order_tmp = none;
  order_json = none;
  request_ready = false;
  response_done = false;
  error_failed = false;
}

-- The file operations of runStage in their order; os.WriteFile may be seen with only its first `n`
-- bytes written.
pub data FileOp : Type 0 where
  remove_all : FileOp
  mkdir_in : FileOp
  mkdir_out : FileOp
  write_tmp : ℕ → FileOp
  finish_tmp : FileOp
  rename_tmp : FileOp
  touch_ready : FileOp

unfoldable pub apply_op : Bytes → FileOp → TaskDir → TaskDir
apply_op envelope remove_all dir = no_files
apply_op envelope mkdir_in dir = record dir { in_dir = true }
apply_op envelope mkdir_out dir = record dir { out_dir = true }
apply_op envelope (write_tmp n) dir = record dir { order_tmp = some (take n envelope) }
apply_op envelope finish_tmp dir = record dir { order_tmp = some envelope }
apply_op envelope rename_tmp dir = record dir { order_tmp = none; order_json = dir.order_tmp }
apply_op envelope touch_ready dir = record dir { request_ready = true }

-- What runStage does before it polls; `n` bytes are written when the write is first seen.
abbrev pub setup : ℕ → List FileOp
setup n =
    remove_all ∷ mkdir_in ∷ mkdir_out ∷ write_tmp n ∷ finish_tmp ∷ rename_tmp ∷ touch_ready ∷ []

-- The first `k` operations: an operation that fails ends the run, and so may a crash. Nobody else writes
-- in the directory.
unfoldable pub run_setup : Bytes → ℕ → List FileOp → TaskDir → TaskDir
unfolding apply_op
run_setup envelope zero ops dir = dir
run_setup envelope (suc k) [] dir = dir
run_setup envelope (suc k) (op ∷ ops) dir = run_setup envelope k ops (apply_op envelope op dir)

-- Where only the set-up writes in the task's directory, and no stage of an earlier attempt is still at
-- work in it: whenever the stage finds request.ready, however far the set-up has come past its first
-- operation and whatever an earlier attempt left behind, order.json is there with the whole envelope,
-- and no marker of an earlier attempt is left.
pub ready_means_whole :
    (envelope : Bytes) (n k : ℕ) (stale : TaskDir)
    → (run_setup envelope (suc k) (setup n) stale).request_ready ≡ true
    → let dir = run_setup envelope (suc k) (setup n) stale in
      (dir.order_json ≡ some envelope) × (dir.response_done ≡ false) × (dir.error_failed ≡ false)
unfolding run_setup
ready_means_whole envelope n zero stale h = cc
ready_means_whole envelope n (suc zero) stale h = cc
ready_means_whole envelope n (suc (suc zero)) stale h = cc
ready_means_whole envelope n (suc (suc (suc zero))) stale h = cc
ready_means_whole envelope n (suc (suc (suc (suc zero)))) stale h = cc
ready_means_whole envelope n (suc (suc (suc (suc (suc zero))))) stale h = cc
ready_means_whole envelope n (suc (suc (suc (suc (suc (suc zero)))))) stale h = (refl, refl, refl)
ready_means_whole envelope n (suc (suc (suc (suc (suc (suc (suc k))))))) stale h =
    (refl, refl, refl)

-- What one round of the polling loop finds.
pub record Poll : Type 0 where
  pub failed : Bool
  pub done : Bool
  pub late : Bool
  pub cancelled : Bool

-- How runStage ends: the stage's answer, or an error; `waiting` if no round so far ends it.
pub data StageEnd : Type 0 where
  success : StageEnd
  rejected : StageEnd
  timed_out : StageEnd
  stopped : StageEnd
  waiting : StageEnd

unfoldable pub poll_stage : List Poll → StageEnd
poll_stage [] = waiting
poll_stage (p ∷ ps) =
    if p.failed
    then rejected
    else if p.done
    then success
    else if p.late
    then timed_out
    else if p.cancelled
    then stopped
    else poll_stage ps

-- The decision that runStage returns with no error.
abbrev pub decision : StageEnd → Option Bool
decision success = some true
decision rejected = some false
decision _ = none

-- A round that ends the loop.
abbrev pub ends : Poll → Bool
ends p = p.failed || (p.done || (p.late || p.cancelled))

-- What a round that ends the loop means: a rejection comes before a success, and either before the
-- time limit and the shutdown.
abbrev pub verdict : Poll → StageEnd
verdict p =
    if p.failed then rejected else if p.done then success else if p.late then timed_out else stopped

abbrev pub IsQuiet : Poll → Type 0
IsQuiet p = ends p ≡ false

-- runStage ends with the first round that has anything to say, and by that round alone: with a
-- rejection if error.failed is there, otherwise with success if response.done is, otherwise with the
-- time limit, and on a shutdown at last. Nothing that comes later counts.
pub poll_stage_first :
    (quiet : List Poll) (p : Poll) (later : List Poll)
    → All IsQuiet quiet
    → ends p ≡ true
    → poll_stage (quiet ++ p ∷ later) ≡ verdict p
unfolding poll_stage
poll_stage_first [] p later q h = ground arith
poll_stage_first (r ∷ quiet) p later q h = ground (arith, poll_stage_first quiet p later q.1 h)
