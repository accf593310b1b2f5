-- ===== src/Elector.antt =====
-- services/leader-elector/main.go: the leadership that the pod reports to its main app. The election is
-- client-go's; here are its callbacks, the refreshing loop and the handler, each load and store of an
-- atomic a step of its own. client-go calls OnStartedLeading in a goroutine of its own, and
-- OnStoppedLeading once the term is over. An instant is its number of nanoseconds, which stays below
-- 2^63 up to the year 2262; the clock does not go back.
pub mod Bounds
pub mod FailClosed
mod Tests
use container_patterns.Common.{
  ℕ, zero, suc, ◌+◌, ◌*◌, ◌/◌, ◌≡◌, Bool, true, false, Option, none, some, List, [], ◌∷◌, Bytes,
  ◌==◌, if◌then◌else◌,
}

pub record LeaderState : Type 0 where
  pub identity : Bytes
  pub is_leader : Bool
  pub leader : Bytes
  pub lease_valid_until_unix : ℕ

-- leaseDuration, 15 seconds.
abbrev pub lease_duration : ℕ
lease_duration = 15000000000

-- The start of main, on POD_NAME, the host's name and POD_NAMESPACE: `none` is klog.Fatalf.
abbrev pub with_identity : Bytes → Bytes → Option LeaderState
with_identity [] ns = none
with_identity (c ∷ cs) [] = none
with_identity (c ∷ cs) (n ∷ ns) =
    some (record { identity = c ∷ cs; is_leader = false; leader = []; lease_valid_until_unix = 0 })

unfoldable pub start : Bytes → Option Bytes → Bytes → Option LeaderState
start [] none ns = with_identity [] ns
start [] (some host) ns = with_identity host ns
start (c ∷ cs) host ns = with_identity (c ∷ cs) ns

-- leaseValidUntil: what its two loads have read, the second only behind a `true`. The text of RFC 3339
-- gives whole seconds; `none` is the empty text.
unfoldable pub lease_valid_until : Bool → ℕ → Option ℕ
lease_valid_until false unix = none
lease_valid_until true unix = if unix == 0 then none else some (unix / 1000000000)

-- The answer of /leader.
pub record Report : Type 0 where
  pub identity : Bytes
  pub leader : Bytes
  pub is_leader : Bool
  pub lease_valid_until : Option ℕ

-- The handler's loads in their order, each with the state that it finds.
unfoldable pub report : LeaderState → LeaderState → LeaderState → LeaderState → Report
unfolding lease_valid_until
report a b c d = record {
  identity = a.identity;
  leader = a.leader;
  is_leader = b.is_leader;
  lease_valid_until = lease_valid_until c.is_leader d.lease_valid_until_unix;
}

-- Where OnStartedLeading stands; `confirmed` and `renewed` have the instant that they are about to store.
pub data Starter : Type 0 where
  unstarted : Starter
  confirmed : ℕ → Starter
  dated : Starter
  refreshing : Starter
  checked : Starter
  renewed : ℕ → Starter
  returned : Starter

-- Where OnStoppedLeading stands.
pub data Stopper : Type 0 where
  waiting : Stopper
  cleared : Stopper
  finished : Stopper

pub record Pod : Type 0 where
  pub state : LeaderState
  pub now : ℕ
  pub starter : Starter
  pub stopper : Stopper

pub data Step (p : Pod) : Pod → Type 0 where
  passes : (n : ℕ) → Step p (record p { now = p.now + n })
  confirms :
      p.starter ≡ unstarted → Step p (record p { starter = confirmed (p.now + lease_duration) })
  stores_lease :
      (v : ℕ)
      → p.starter ≡ confirmed v
      → Step p (record p { starter = dated; state = record p.state { lease_valid_until_unix = v } })
  stores_leading :
      p.starter ≡ dated
      → Step p (record p { starter = refreshing; state = record p.state { is_leader = true } })
  checks :
      p.starter ≡ refreshing → p.state.is_leader ≡ true → Step p (record p { starter = checked })
  renews : p.starter ≡ checked → Step p (record p { starter = renewed (p.now + lease_duration) })
  refreshes :
      (v : ℕ)
      → p.starter ≡ renewed v
      → Step p
          (record p { starter = refreshing; state = record p.state { lease_valid_until_unix = v } })
  returns : p.starter ≡ refreshing → Step p (record p { starter = returned })
  stops :
      p.stopper ≡ waiting
      → Step p (record p { stopper = cleared; state = record p.state { is_leader = false } })
  clears_lease :
      p.stopper ≡ cleared
      → Step p
          (record p { stopper = finished; state = record p.state { lease_valid_until_unix = 0 } })
  observes : (id : Bytes) → Step p (record p { state = record p.state { leader = id } })

pub data Reach (p : Pod) : Pod → Type 0 where
  here : Reach p p
  later : {q r : Pod} → Reach p q → Step q r → Reach p r
