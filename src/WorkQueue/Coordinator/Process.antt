-- ===== src/WorkQueue/Coordinator/Process.antt =====
-- main of services/workqueue-coordinator/main.go: the HTTP server, the goroutine of runReaper and the
-- signal, up to the end of the process. A request and a pass of the reaper are each under way or not;
-- what they do to Redis is in container_patterns.WorkQueue.System.
use mathlib.Core.Path.{subst}
use container_patterns.Common.{ℕ, suc, ◌≡◌, ◌≢◌, Bool, true, false, arith}

-- Where main stands: the Boolean is whether srv.Shutdown has come to its time limit. log.Fatalf ends the
-- process with the code 1.
pub data Phase : Type 0 where
  serving : Phase
  draining : Phase
  joining : Bool → Phase
  exited : Bool → Phase
  fatal : Phase

-- Where runReaper stands: at its select, in a pass, or returned.
pub data Reaper : Type 0 where
  ticking : Reaper
  reaping : Reaper
  finished : Reaper

pub record Process : Type 0 where
  pub phase : Phase
  pub reaper : Reaper
  pub requests : ℕ
  pub cancelled : Bool

-- The start: the goroutines of the reaper and of the server are running.
unfoldable pub started : Process
started = record { phase = serving; reaper = ticking; requests = 0; cancelled = false }

-- When a request may still start: while the server listens, and, on a connection that it has accepted
-- before, as long as srv.Shutdown has not found all of them idle and closed them.
abbrev Accepts : Phase → Type 0
Accepts serving = Unit
Accepts draining = Unit
Accepts (joining true) = Unit
Accepts _ = ⊥

-- A select that finds both the tick and the end of the context may take either.
pub data Step (p : Process) : Process → Type 0 where
  request_comes : Accepts p.phase → Step p (record p { requests = suc p.requests })
  request_ends : (n : ℕ) → p.requests ≡ suc n → Step p (record p { requests = n })
  signalled : Step p (record p { cancelled = true })
  listen_fails : p.phase ≡ serving → Step p (record p { phase = fatal })
  shuts_down : p.phase ≡ serving → p.cancelled ≡ true → Step p (record p { phase = draining })
  drained : p.phase ≡ draining → p.requests ≡ 0 → Step p (record p { phase = joining false })
  drain_ends : p.phase ≡ draining → Step p (record p { phase = joining true })
  pass_starts : p.reaper ≡ ticking → Step p (record p { reaper = reaping })
  pass_ends : p.reaper ≡ reaping → Step p (record p { reaper = ticking })
  reaper_returns : p.reaper ≡ ticking → p.cancelled ≡ true → Step p (record p { reaper = finished })
  joins :
      (late : Bool)
      → p.phase ≡ joining late
      → p.reaper ≡ finished
      → Step p (record p { phase = exited late })

pub data Reach (p : Process) : Process → Type 0 where
  here : Reach p p
  later : {q r : Process} → Reach p q → Step q r → Reach p r

-- What holds in each phase: behind a drain that was not cut off no request is under way, and a process
-- that has ended has no reaper.
abbrev InOrder : Phase → Reaper → ℕ → Type 0
InOrder (joining false) reaper n = n ≡ 0
InOrder (exited late) reaper n = (reaper ≡ finished) × (late ≡ false → n ≡ 0)
InOrder _ reaper n = Unit

-- A request that comes.
InOrder-comes : (p : Phase) (r : Reaper) (n : ℕ) → Accepts p → InOrder p r n
InOrder-comes serving r n a = tt
InOrder-comes draining r n a = tt
InOrder-comes (joining true) r n a = tt
InOrder-comes (joining false) r n a = absurd a
InOrder-comes (exited late) r n a = absurd a
InOrder-comes fatal r n a = tt

-- A request that ends.
InOrder-ends : (p : Phase) (r : Reaper) (m n : ℕ) → m ≡ suc n → InOrder p r m → InOrder p r n
InOrder-ends serving r m n e h = tt
InOrder-ends draining r m n e h = tt
InOrder-ends fatal r m n e h = tt
InOrder-ends (joining true) r m n e h = tt
InOrder-ends (joining false) r m n e h = omega (arith, e, h)
InOrder-ends (exited late) r m n e (f, h) = (f, λ k. omega (arith, e, h k))

-- The reaper, as long as it has not returned, may go on or return.
InOrder-reaper : (p : Phase) (r r' : Reaper) (n : ℕ) → r ≢ finished → InOrder p r n → InOrder p r' n
InOrder-reaper serving r r' n e h = tt
InOrder-reaper draining r r' n e h = tt
InOrder-reaper fatal r r' n e h = tt
InOrder-reaper (joining true) r r' n e h = tt
InOrder-reaper (joining false) r r' n e h = h
InOrder-reaper (exited late) r r' n e (f, h) = absurd (e f)

InOrder-joins :
    (late : Bool) (p : Phase) (r : Reaper) (n : ℕ)
    → p ≡ joining late
    → r ≡ finished
    → InOrder p r n
    → InOrder (exited late) r n
InOrder-joins late p r n e f h = (f, still late (subst (λ q. InOrder q r n) e h))
  where
    still : (b : Bool) → InOrder (joining b) r n → b ≡ false → n ≡ 0
    still true k same = cc
    still false k same = k

Step-InOrder :
    {p q : Process}
    → Step p q
    → InOrder p.phase p.reaper p.requests
    → InOrder q.phase q.reaper q.requests
Step-InOrder {p} (request_comes e) h = InOrder-comes p.phase p.reaper (suc p.requests) e
Step-InOrder {p} (request_ends n e) h = InOrder-ends p.phase p.reaper p.requests n e h
Step-InOrder signalled h = h
Step-InOrder (listen_fails e) h = tt
Step-InOrder (shuts_down e f) h = tt
Step-InOrder (drained e f) h = f
Step-InOrder (drain_ends e) h = tt
Step-InOrder {p} (pass_starts e) h = InOrder-reaper p.phase p.reaper reaping p.requests (λ f. cc) h
Step-InOrder {p} (pass_ends e) h = InOrder-reaper p.phase p.reaper ticking p.requests (λ f. cc) h
Step-InOrder {p} (reaper_returns e f) h =
    InOrder-reaper p.phase p.reaper finished p.requests (λ g. cc) h
Step-InOrder {p} (joins late e f) h = InOrder-joins late p.phase p.reaper p.requests e f h

Reach-InOrder : {p : Process} → Reach started p → InOrder p.phase p.reaper p.requests
unfolding started
Reach-InOrder here = tt
Reach-InOrder (later r s) = Step-InOrder s (Reach-InOrder r)

-- The coordinator only ends with its last log line when its reaper has returned, so never in a pass, and,
-- unless the shutdown of the server came to its time limit, when no request is under way any more.
pub exits_in_order :
    (p : Process) (late : Bool)
    → Reach started p
    → p.phase ≡ exited late
    → (p.reaper ≡ finished) × (late ≡ false → p.requests ≡ 0)
exits_in_order p late r e = subst (λ q. InOrder q p.reaper p.requests) e (Reach-InOrder r)
