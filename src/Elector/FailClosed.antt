-- ===== src/Elector/FailClosed.antt =====
-- Once leadership is lost, the pod does not report it any more.
use container_patterns.Common.{ℕ, ◌/◌, ◌≡◌, ◌≢◌, refl, Bool, true, false, none, some, arith, ◌==◌}
use container_patterns.Elector.{
  lease_valid_until, report, Starter, unstarted, confirmed, dated, refreshing, checked, renewed,
  returned, Stopper, waiting, cleared, finished, Pod, Step, passes, confirms, stores_lease,
  stores_leading, checks, renews, refreshes, returns, stops, clears_lease, observes, Reach, here,
  later,
}

-- OnStartedLeading is past its stores, in its loop or returned.
abbrev pub has_started : Starter → Bool
has_started unstarted = false
has_started (confirmed v) = false
has_started dated = false
has_started refreshing = true
has_started checked = true
has_started (renewed v) = true
has_started returned = true

abbrev pub is_stopping : Stopper → Bool
is_stopping waiting = false
is_stopping cleared = true
is_stopping finished = true

-- Leadership is lost for good.
record Lost (p : Pod) : Type 0 where
  settled : has_started p.starter ≡ true
  stopping : is_stopping p.stopper ≡ true
  not_leading : p.state.is_leader ≡ false

Step-Lost : {p q : Pod} → Step p q → Lost p → Lost q
Step-Lost (passes n) l = record {
  settled = l.settled;
  stopping = l.stopping;
  not_leading = l.not_leading;
}
Step-Lost (confirms e) l = cc (l.settled, e)
Step-Lost (stores_lease v e) l = cc (l.settled, e)
Step-Lost (stores_leading e) l = cc (l.settled, e)
Step-Lost (checks e f) l = record {
  settled = refl;
  stopping = l.stopping;
  not_leading = l.not_leading;
}
Step-Lost (renews e) l = record {
  settled = refl;
  stopping = l.stopping;
  not_leading = l.not_leading;
}
Step-Lost (refreshes v e) l = record {
  settled = refl;
  stopping = l.stopping;
  not_leading = l.not_leading;
}
Step-Lost (returns e) l = record {
  settled = refl;
  stopping = l.stopping;
  not_leading = l.not_leading;
}
Step-Lost (stops e) l = record { settled = l.settled; stopping = refl; not_leading = refl }
Step-Lost (clears_lease e) l = record {
  settled = l.settled;
  stopping = refl;
  not_leading = l.not_leading;
}
Step-Lost (observes id) l = record {
  settled = l.settled;
  stopping = l.stopping;
  not_leading = l.not_leading;
}

Reach-Lost : {p q : Pod} → Reach p q → Lost p → Lost q
Reach-Lost here l = l
Reach-Lost (later r s) l = Step-Lost s (Reach-Lost r l)

-- The pod behind the first store of OnStoppedLeading.
abbrev pub stopped : Pod → Pod
stopped p = record p { stopper = cleared; state = record p.state { is_leader = false } }

stopped-Lost : (p : Pod) → has_started p.starter ≡ true → Lost (stopped p)
stopped-Lost p e = record { settled = e; stopping = refl; not_leading = refl }

-- If OnStartedLeading has got through its two stores when OnStoppedLeading makes its first, every request
-- whose loads come after that store is told that the pod does not lead and has no lease, for good: not
-- even a refresh that had already seen the pod lead changes this.
pub stops_for_good :
    (p a b c d : Pod)
    → p.stopper ≡ waiting
    → has_started p.starter ≡ true
    → Reach (stopped p) b
    → Reach (stopped p) c
    → let r = report a.state b.state c.state d.state in
      (r.is_leader ≡ false) × (r.lease_valid_until ≡ none)
unfolding report lease_valid_until
stops_for_good p a b c d w e r s = (
  (Reach-Lost r (stopped-Lost p e)).not_leading,
  (rw (Reach-Lost s (stopped-Lost p e)).not_leading refl),
)

-- The pod behind the two stores of OnStartedLeading.
abbrev pub led : Pod → ℕ → Pod
led p v = record p {
  starter = refreshing;
  state = record p.state { lease_valid_until_unix = v; is_leader = true };
}

positive_unset : (v : ℕ) → v ≢ 0 → (v == 0) ≡ false
positive_unset v h = ground arith

-- An OnStartedLeading that has its instant, which is not 0, but gets to its stores only after
-- OnStoppedLeading is through makes the pod report leadership and a lease again, with nothing left
-- to take it back.
pub late_start_leads :
    (p : Pod) (v : ℕ)
    → p.starter ≡ confirmed v
    → p.stopper ≡ finished
    → v ≢ 0
    → (q : Pod) × Reach p q
      × (q.stopper ≡ finished)
      × (let r = report q.state q.state q.state q.state in
          (r.is_leader ≡ true) × (r.lease_valid_until ≡ some (v / 1000000000)))
unfolding report lease_valid_until
late_start_leads p v e f h = (
  led p v,
  later (later here (stores_lease v e)) (stores_leading refl),
  f,
  (refl, (rw (positive_unset v h) refl)),
)
