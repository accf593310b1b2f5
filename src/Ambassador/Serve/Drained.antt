-- ===== src/Ambassador/Serve/Drained.antt =====
-- What serve has closed when it returns.
use mathlib.Core.Path.{subst}
use container_patterns.Common.{
  ℕ, ◌≡◌, refl, sym, ap, ◌∙◌, Bool, true, false, List, [], ◌∷◌, ◌++◌, arith, Bytes, ◌≤◌,
}
use container_patterns.Ambassador.Pool.{Pool}
use container_patterns.Ambassador.Pool.Balance.{count}
use container_patterns.Ambassador.Pool.Shared.{Shared}
use container_patterns.Ambassador.Pool.Shared
use container_patterns.Ambassador.Pool.Shared.Exclusive.{unused, pool_exclusive}
use container_patterns.Ambassador.Serve.{
  Client, waiting, using, Phase, accepting, draining, closing, returned, Process, Step, accepts,
  cancels, accept_ends, drains, times_out, closes_idle, returns, hangs_up, takes, dials, puts,
  closes, Reach, here, later, serving,
}

-- The upstream connections in use.
abbrev pub held_by : Client → List ℕ → List ℕ
held_by waiting held = held
held_by (using c) held = c ∷ held

unfoldable pub held_of : List Client → List ℕ
held_of [] = []
held_of (x ∷ xs) = held_by x (held_of xs)

held_of-append : (xs ys : List Client) → held_of (xs ++ ys) ≡ held_of xs ++ held_of ys
unfolding held_of
held_of-append [] ys = refl
held_of-append (waiting ∷ xs) ys = held_of-append xs ys
held_of-append (using c ∷ xs) ys = ap (◌∷◌ c) (held_of-append xs ys)

-- A client that waits holds nothing, and one in a command holds its connection.
held_of-waiting :
    (before after : List Client) {xs : List Client}
    → xs ≡ before ++ waiting ∷ after
    → held_of xs ≡ held_of (before ++ after)
unfolding held_of
held_of-waiting before after e =
    ap held_of e ∙ held_of-append before (waiting ∷ after) ∙ sym (held_of-append before after)

held_of-using :
    (c : ℕ) (before after : List Client) {xs : List Client}
    → xs ≡ before ++ using c ∷ after
    → held_of xs ≡ held_of before ++ c ∷ held_of after
unfolding held_of
held_of-using c before after e = ap held_of e ∙ held_of-append before (using c ∷ after)

-- The pool with the connections in use.
abbrev shared : Process → Shared
shared s = record { pool = s.pool; held = held_of s.clients }

at_held :
    {u : Shared} (p : Pool) {xs ys : List ℕ}
    → xs ≡ ys
    → Shared.Reach u (record { pool = p; held = xs })
    → Shared.Reach u (record { pool = p; held = ys })
at_held {u} p e r = subst (λ held. Shared.Reach u (record { pool = p; held = held })) e r

-- A step of the process is a run of the pool's steps.
Step-Shared :
    {u : Shared} {s t : Process} → Step s t → Shared.Reach u (shared s) → Shared.Reach u (shared t)
unfolding held_of
Step-Shared (accepts e) r = r
Step-Shared cancels r = r
Step-Shared (accept_ends e f) r = r
Step-Shared (drains e f) r = r
Step-Shared (times_out e) r = r
Step-Shared {s = s} (closes_idle b c idle e f) r =
    Shared.later (Shared.later r (Shared.takes c idle f))
      (Shared.closes c [] (held_of s.clients) refl)
Step-Shared (returns b e f) r = r
Step-Shared {s = s} (hangs_up before after e) r = at_held s.pool (held_of-waiting before after e) r
Step-Shared {s = s} (takes c idle before after e f) r =
    Shared.later (at_held s.pool (held_of-waiting before after e) r) (Shared.takes c idle f)
Step-Shared {s = s} (dials c before after e new) r =
    Shared.later (at_held s.pool (held_of-waiting before after e) r) (Shared.dials c new)
Step-Shared {s = s} (puts c before after e room) r = at_held _ (sym (held_of-append before after)) (
    Shared.later r
      (Shared.puts c (held_of before) (held_of after) (held_of-using c before after e) room))
Step-Shared {s = s} (closes c before after e) r = at_held _ (sym (held_of-append before after)) (
    Shared.later r
      (Shared.closes c (held_of before) (held_of after) (held_of-using c before after e)))

Reach-Shared :
    (addr : Bytes) {s : Process} → Reach (serving addr) s → Shared.Reach (unused addr) (shared s)
unfolding serving held_of
Reach-Shared addr here = Shared.here
Reach-Shared addr (later r st) = Step-Shared st (Reach-Shared addr r)

-- Behind a drain that was not cut off there is no client, and behind closeAll no idle connection.
abbrev SettledAt : Phase → List Client → List ℕ → Type 0
SettledAt (closing false) clients idle = clients ≡ []
SettledAt (returned false) clients idle = (clients ≡ []) × (idle ≡ [])
SettledAt _ clients idle = Unit

abbrev Settled : Process → Type 0
Settled s = SettledAt s.phase s.clients s.pool.idle

count-nil : (c : ℕ) {xs : List ℕ} → xs ≡ [] → count c xs ≡ 0
unfolding count
count-nil c e = ap (count c) e

nobody : (x : Client) (before after : List Client) → ¬ ([] ≡ before ++ x ∷ after)
nobody x [] after e = cc
nobody x (y ∷ before) after e = cc

-- Where there is a client, nothing is settled yet.
SettledAt-busy :
    (p : Phase) (x : Client) (before after clients clients' : List Client) (idle idle' : List ℕ)
    → clients ≡ before ++ x ∷ after
    → SettledAt p clients idle
    → SettledAt p clients' idle'
SettledAt-busy accepting x before after clients clients' idle idle' e h = tt
SettledAt-busy draining x before after clients clients' idle idle' e h = tt
SettledAt-busy (closing true) x before after clients clients' idle idle' e h = tt
SettledAt-busy (returned true) x before after clients clients' idle idle' e h = tt
SettledAt-busy (closing false) x before after clients clients' idle idle' e h =
    absurd (nobody x before after (sym h ∙ e))
SettledAt-busy (returned false) x before after clients clients' idle idle' e h =
    absurd (nobody x before after (sym h.0 ∙ e))

SettledAt-accepting :
    (p : Phase) (clients : List Client) (idle : List ℕ) → p ≡ accepting → SettledAt p clients idle
SettledAt-accepting p clients idle e = subst (λ q. SettledAt q clients idle) (sym e) tt

SettledAt-closing :
    (b : Bool) (p : Phase) (clients : List Client) (idle idle' : List ℕ)
    → p ≡ closing b
    → SettledAt p clients idle
    → SettledAt p clients idle'
SettledAt-closing b p clients idle idle' e h =
    subst (λ q. SettledAt q clients idle') (sym e)
      (still b (subst (λ q. SettledAt q clients idle) e h))
  where
    still : (c : Bool) → SettledAt (closing c) clients idle → SettledAt (closing c) clients idle'
    still true k = tt
    still false k = k

SettledAt-returned :
    (b : Bool) (p : Phase) (clients : List Client) (idle : List ℕ)
    → p ≡ closing b
    → idle ≡ []
    → SettledAt p clients idle
    → SettledAt (returned b) clients idle
SettledAt-returned b p clients idle e f h = still b (subst (λ q. SettledAt q clients idle) e h)
  where
    still : (c : Bool) → SettledAt (closing c) clients idle → SettledAt (returned c) clients idle
    still true k = tt
    still false k = (k, f)

Step-Settled : {s t : Process} → Step s t → Settled s → Settled t
Step-Settled {s = s} (accepts e) h = SettledAt-accepting s.phase _ s.pool.idle e
Step-Settled cancels h = h
Step-Settled (accept_ends e f) h = tt
Step-Settled (drains e f) h = f
Step-Settled (times_out e) h = tt
Step-Settled {s = s} (closes_idle b c idle e f) h =
    SettledAt-closing b s.phase s.clients s.pool.idle idle e h
Step-Settled {s = s} (returns b e f) h = SettledAt-returned b s.phase s.clients s.pool.idle e f h
Step-Settled {s = s} (hangs_up before after e) h =
    SettledAt-busy s.phase waiting before after s.clients _ s.pool.idle _ e h
Step-Settled {s = s} (takes c idle before after e f) h =
    SettledAt-busy s.phase waiting before after s.clients _ s.pool.idle _ e h
Step-Settled {s = s} (dials c before after e new) h =
    SettledAt-busy s.phase waiting before after s.clients _ s.pool.idle _ e h
Step-Settled {s = s} (puts c before after e room) h =
    SettledAt-busy s.phase (using c) before after s.clients _ s.pool.idle _ e h
Step-Settled {s = s} (closes c before after e) h =
    SettledAt-busy s.phase (using c) before after s.clients _ s.pool.idle _ e h

Reach-Settled : (addr : Bytes) {s : Process} → Reach (serving addr) s → Settled s
unfolding serving
Reach-Settled addr here = tt
Reach-Settled addr (later r st) = Step-Settled st (Reach-Settled addr r)

-- However the clients' commands interleave with the accept loop, the shutdown and closeAll: when serve
-- returns and its drain was not cut off by drainTimeout, no client is left, and every upstream connection
-- of the shard's pool that was ever dialled has been closed, once. Each connection that is dialled is
-- a new one.
pub serve_closes :
    (addr : Bytes) (s : Process) (c : ℕ)
    → Reach (serving addr) s
    → s.phase ≡ returned false
    → (s.clients ≡ [])
      × (count c s.pool.closed ≡ count c s.pool.opened)
      × (count c s.pool.opened ≤ 1)
unfolding held_of
serve_closes addr s c r e =
    let (alone, none_idle) =
      subst (λ p. SettledAt p s.clients s.pool.idle) e (Reach-Settled addr r) in
    let (whole, once, few) = pool_exclusive addr (shared s) c (Reach-Shared addr r) in
    (alone, omega (arith, whole, count-nil c none_idle, count-nil c (ap held_of alone)), once)
