-- ===== src/Ambassador/Serve/Tests.antt =====
-- One client, one command, and a shutdown.
use container_patterns.Common.{◌≡◌, ◌≤◌, refl, true, false, [], ◌∷◌, arith, codes}
use container_patterns.Ambassador.Pool.{new_pool}
use container_patterns.Ambassador.Pool.Balance.{count}
use container_patterns.Ambassador.Serve.{
  returned, Process, accepts, cancels, accept_ends, drains, closes_idle, returns, hangs_up, dials,
  puts, Reach, here, later, serving,
}
use container_patterns.Ambassador.Serve.Drained.{serve_closes}

abbrev ended : Process
ended = record {
  pool = record { addr = codes "a"; idle = []; opened = 7 ∷ []; closed = 7 ∷ [] };
  clients = [];
  cancelled = true;
  phase = returned false;
}

one_command : Reach (serving (codes "a")) ended
unfolding serving new_pool count
one_command =
    let in_command = later (later here (accepts refl)) (dials 7 [] [] refl refl) in
    let answered =
      later (later in_command (puts 7 [] [] refl (omega arith))) (hangs_up [] [] refl) in
    let drained =
      later (later (later answered cancels) (accept_ends refl refl)) (drains refl refl) in
    later (later drained (closes_idle false 7 [] refl refl)) (returns false refl refl)

serve_closes_example :
    (ended.clients ≡ [])
    × (count 7 ended.pool.closed ≡ count 7 ended.pool.opened)
    × (count 7 ended.pool.opened ≤ 1)
serve_closes_example = serve_closes (codes "a") ended 7 one_command refl
