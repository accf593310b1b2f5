-- ===== src/Elector/Bounds.antt =====
-- The instant that is reported lies at most one lease ahead.
use container_patterns.Common.{
  ℕ, ◌+◌, ◌*◌, ◌≤◌, ◌≡◌, sym, ap, Bool, true, false, Option, none, some, [], ◌∷◌, arith, Bytes,
}
use container_patterns.Elector.{
  LeaderState, lease_duration, lease_valid_until, report, Starter, unstarted, confirmed, renewed,
  Stopper, Pod, start, with_identity, Step, passes, confirms, stores_lease, stores_leading, checks,
  renews, refreshes, returns, stops, clears_lease, observes, Reach, here, later,
}

-- The instant that OnStartedLeading is about to store, if it has one.
abbrev pub held : Starter → ℕ
held (confirmed v) = v
held (renewed v) = v
held _ = 0

pub record Bounded (p : Pod) : Type 0 where
  pub stored : p.state.lease_valid_until_unix ≤ p.now + lease_duration
  pub in_hand : held p.starter ≤ p.now + lease_duration

Step-Bounded : {p q : Pod} → Step p q → Bounded p → Bounded q
Step-Bounded (passes n) b = record {
  stored = omega (arith, b.stored);
  in_hand = omega (arith, b.in_hand);
}
Step-Bounded (confirms e) b = record { stored = b.stored; in_hand = omega arith }
Step-Bounded (stores_lease v e) b = record {
  stored = omega (arith, b.in_hand, ap held e);
  in_hand = omega arith;
}
Step-Bounded (stores_leading e) b = record { stored = b.stored; in_hand = omega arith }
Step-Bounded (checks e l) b = record { stored = b.stored; in_hand = omega arith }
Step-Bounded (renews e) b = record { stored = b.stored; in_hand = omega arith }
Step-Bounded (refreshes v e) b = record {
  stored = omega (arith, b.in_hand, ap held e);
  in_hand = omega arith;
}
Step-Bounded (returns e) b = record { stored = b.stored; in_hand = omega arith }
Step-Bounded (stops e) b = record { stored = b.stored; in_hand = b.in_hand }
Step-Bounded (clears_lease e) b = record { stored = omega arith; in_hand = b.in_hand }
Step-Bounded (observes id) b = record { stored = b.stored; in_hand = b.in_hand }

pub Reach-Bounded : {p q : Pod} → Reach p q → Bounded p → Bounded q
Reach-Bounded here b = b
Reach-Bounded (later r s) b = Step-Bounded s (Reach-Bounded r b)

-- The pod as main starts it.
abbrev pub started : LeaderState → ℕ → Pod
started s now = record { state = s; now = now; starter = unstarted; stopper = Stopper.waiting }

abbrev started_with : Option LeaderState → ℕ
started_with none = 0
started_with (some s) = s.lease_valid_until_unix

with_identity_unset :
    (id ns : Bytes) (s : LeaderState) → with_identity id ns ≡ some s → s.lease_valid_until_unix ≡ 0
with_identity_unset [] ns s e = cc
with_identity_unset (c ∷ cs) [] s e = cc
with_identity_unset (c ∷ cs) (n ∷ ns) s e = ap started_with (sym e)

start_unset :
    (pod_name : Bytes) (host : Option Bytes) (ns : Bytes) (s : LeaderState)
    → start pod_name host ns ≡ some s
    → s.lease_valid_until_unix ≡ 0
unfolding start
start_unset [] none ns s e = with_identity_unset [] ns s e
start_unset [] (some host) ns s e = with_identity_unset host ns s e
start_unset (c ∷ cs) host ns s e = with_identity_unset (c ∷ cs) ns s e

started-Bounded :
    (s : LeaderState) (now : ℕ) → s.lease_valid_until_unix ≡ 0 → Bounded (started s now)
started-Bounded s now e = record { stored = omega (arith, e); in_hand = omega arith }

reported_bound :
    (leading : Bool) (unix t bound : ℕ)
    → lease_valid_until leading unix ≡ some t
    → unix ≤ bound
    → t * 1000000000 ≤ bound
unfolding lease_valid_until
reported_bound false unix t bound e h = cc
reported_bound true unix t bound e h = ground arith

-- Whatever the callbacks and the refreshing loop have done since main started the pod, and
-- whatever happens between the loads of one request, while the clock does not go back: an instant
-- that /leader reports is at most the lease duration of 15 seconds past the moment at which the
-- handler loads it.
pub report_bounded :
    (pod_name : Bytes) (host : Option Bytes) (ns : Bytes) (s : LeaderState) (now : ℕ)
    (a b c d : Pod) (t : ℕ)
    → start pod_name host ns ≡ some s
    → Reach (started s now) d
    → (report a.state b.state c.state d.state).lease_valid_until ≡ some t
    → t * 1000000000 ≤ d.now + lease_duration
unfolding report
report_bounded pod_name host ns s now a b c d t e r h =
    reported_bound c.state.is_leader d.state.lease_valid_until_unix t (d.now + lease_duration) h
      (Reach-Bounded r (started-Bounded s now (start_unset pod_name host ns s e))).stored
