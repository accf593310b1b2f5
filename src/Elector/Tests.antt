-- ===== src/Elector/Tests.antt =====
-- Runs of one pod: it leads, it stops, it is late.
use container_patterns.Common.{
  ℕ, ◌+◌, ◌*◌, ◌/◌, ◌≤◌, ◌≡◌, refl, arith, true, false, none, some, [], ◌∷◌,
}
use container_patterns.Elector.{
  LeaderState, lease_duration, lease_valid_until, report, confirmed, refreshing, renewed, finished,
  Pod, start, confirms, stores_lease, stores_leading, refreshes, Reach, here, later,
}
use container_patterns.Elector.Bounds.{started, report_bounded}
use container_patterns.Elector.FailClosed.{stopped, led, stops_for_good, late_start_leads}

abbrev fresh : LeaderState
fresh = record { identity = 112 ∷ []; is_leader = false; leader = []; lease_valid_until_unix = 0 }

abbrev second : ℕ → ℕ
second n = n * 1000000000

abbrev first : Pod
first = started fresh (second 100)

-- It leads from second 100 on, a lease of 15 seconds ahead.
abbrev leading : Pod
leading = led (record first { starter = confirmed (second 115) }) (second 115)

first-leading : Reach first leading
first-leading =
    later (later (later here (confirms refl)) (stores_lease (second 115) refl))
      (stores_leading refl)

started_lem : start (112 ∷ []) none (110 ∷ []) ≡ some fresh
unfolding start
started_lem = refl

reported_lem :
    (report leading.state leading.state leading.state leading.state).lease_valid_until ≡ some 115
unfolding report lease_valid_until
reported_lem = refl

report_bounded_example : second 115 ≤ second 100 + lease_duration
report_bounded_example =
    report_bounded (112 ∷ []) none (110 ∷ []) fresh (second 100) leading leading leading leading 115
      started_lem first-leading reported_lem

-- The refreshing loop has seen it lead, and stores its instant after the stop.
abbrev caught : Pod
caught = record leading { starter = renewed (second 117) }

abbrev refreshed : Pod
refreshed = record (stopped caught) {
  starter = refreshing;
  state = record (stopped caught).state { lease_valid_until_unix = second 117 };
}

caught-refreshed : Reach (stopped caught) refreshed
caught-refreshed = later here (refreshes (second 117) refl)

stops_for_good_example :
    ((report caught.state refreshed.state refreshed.state refreshed.state).is_leader ≡ false)
    × ((report caught.state refreshed.state refreshed.state refreshed.state).lease_valid_until
        ≡ none)
stops_for_good_example =
    stops_for_good caught caught refreshed refreshed refreshed refl refl caught-refreshed
      caught-refreshed

-- The callback of the start comes after that of the stop.
abbrev overtaken : Pod
overtaken = record first { starter = confirmed (second 115); stopper = finished }

late_start_leads_example :
    (q : Pod) × Reach overtaken q
    × (q.stopper ≡ finished)
    × ((report q.state q.state q.state q.state).is_leader ≡ true
        × (report q.state q.state q.state q.state).lease_valid_until
          ≡ some (second 115 / 1000000000))
late_start_leads_example = late_start_leads overtaken (second 115) refl refl (λ e. omega (arith, e))
