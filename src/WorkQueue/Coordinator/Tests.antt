-- ===== src/WorkQueue/Coordinator/Tests.antt =====
-- A coordinator that is signalled in a pass of its reaper.
use container_patterns.Common.{◌≡◌, refl, true, false}
use container_patterns.WorkQueue.Coordinator.Process.{
  exited, finished, Process, started, signalled, shuts_down, drained, pass_starts, pass_ends,
  reaper_returns, joins, Reach, here, later, exits_in_order,
}

abbrev ended : Process
ended = record { phase = exited false; reaper = finished; requests = 0; cancelled = true }

mid_pass : Reach started ended
unfolding started
mid_pass =
    let in_pass = later (later here (pass_starts refl)) signalled in
    let drain = later (later in_pass (shuts_down refl refl)) (drained refl refl) in
    let returned = later (later drain (pass_ends refl)) (reaper_returns refl refl) in
    later returned (joins false refl refl)

exits_in_order_example : (ended.reaper ≡ finished) × (false ≡ false → ended.requests ≡ 0)
exits_in_order_example = exits_in_order ended false mid_pass refl
