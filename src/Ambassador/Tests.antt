-- ===== src/Ambassador/Tests.antt =====
-- A network with one backend that answers every command with +OK, and the theorems at inputs that
-- meet their hypotheses.
use container_patterns.Common.{
  ◌%◌, ◌+◌, ◌≤◌, bytes_eq, ◌≢◌, ℕ, suc, ◌≡◌, refl, true, false, some, List, [], ◌∷◌, ◌++◌, arith,
  Bytes, codes, length, get_elem?,
}
use container_patterns.Resp.Wire.{Result, ok, err, crlf}
use container_patterns.Resp.Command.{encode_command}
use container_patterns.Resp.Reply.{read_one_reply}
use container_patterns.Resp.Reply.Grammar.{failure, encode}
use container_patterns.Ambassador.Pool.{Net, Pool, new_pool, do_command}
use container_patterns.Ambassador.Pool.Balance.{Balanced, count}
use container_patterns.Ambassador.Pool.{read_back, max_idle}
use container_patterns.Ambassador.Pool.Shared.{Shared, takes, dials, puts, Reach, here, later}
use container_patterns.Ambassador.Pool.Shared.Exclusive.{unused, pool_exclusive}
use container_patterns.Ambassador.Crc32.{checksum}
use container_patterns.Ambassador.Dispatch.{command_of, to_upper, get, unknown_command, dispatch}
use container_patterns.Ambassador.Server.{quitted, dropped, no_fuel, serve_conn}
use container_patterns.Ambassador.Server.Session.{output, replies, serve_conn_relays, answer_unsent}
use container_patterns.Resp.Command.{read_command, read_multibulk, read_inline}
use container_patterns.Resp.Command.Fields.{fields, split_fields}
use container_patterns.Resp.Wire.{protocol, read_line, trim_crlf, strip_last}
use container_patterns.Decimal.{atoi, scan_number, scan_digits}
use container_patterns.Ambassador.Dispatch.Replies.{unknown_command_splits}
use container_patterns.Ambassador.Dispatch.Routing.{IsServed, told, ChangedAt, dispatch_routes}

-- The world is the next connection's number.
abbrev echo : Net
echo = record {
  World = ℕ;
  dial = λ addr n. (some n, suc n);
  set_deadline = λ c n. (true, n);
  clear_deadline = λ c n. (true, n);
  write = λ c cmd n. (true, n);
  incoming = λ c n. codes "+OK" ++ crlf;
  advance = λ c rest n. n;
  close = λ c n. n;
}

abbrev shard : Pool
shard = new_pool (codes "cache-shard-0.cache-shards:6379")

shard-Balanced : Balanced [] shard
unfolding new_pool count
shard-Balanced = record { whole = λ c. refl; few = omega arith }

abbrev shards : List Pool
shards = shard ∷ shard ∷ shard ∷ []

shards-IsServed : IsServed shards
shards-IsServed = (omega arith, omega arith)

abbrev get_k : List Bytes
get_k = codes "get" ∷ codes "k" ∷ []

dispatch_routes_example :
    let i = checksum (codes "k") % 3 in
    (p : Pool) × (get_elem? shards i ≡ some p)
    × (let (r, (p', w')) = do_command echo (encode_command get_k) (p, 7) in
        (after : List Pool) × (dispatch echo get_k (shards, 7)
          ≡ some ((told echo r, false), (after, w')))
        × ChangedAt echo i p' shards after)
unfolding command_of to_upper
dispatch_routes_example =
    dispatch_routes echo get (codes "get") (codes "k") [] shards 7 refl shards-IsServed

abbrev broken_name : Bytes
broken_name = codes "A" ++ (crlf ++ codes "B")

unknown_command_splits_example :
    (dispatch echo (broken_name ∷ []) (shards, 7)
      ≡ some ((unknown_command broken_name, false), (shards, 7)))
    × (read_one_reply (unknown_command broken_name)
        ≡ ok (encode (failure (codes "ERR unknown command 'A")), codes "B'" ++ crlf))
unfolding command_of to_upper
unknown_command_splits_example =
    unknown_command_splits echo (codes "A") (codes "B") [] (shards, 7) refl ((λ e. omega arith), tt)

-- Two commands that arrive together, the second of which is no command.
abbrev ping_then_junk : Bytes
ping_then_junk = (codes "PING" ++ crlf) ++ (codes "*x" ++ crlf)

serve_conn_relays_example :
    let e = serve_conn echo (λ rest. false) ping_then_junk (shards, 7) in
    (e.0 ≢ no_fuel)
    × (output e.1.0 ≡ replies echo (suc (length ping_then_junk)) ping_then_junk (shards, 7))
    × (e.0 ≡ quitted → e.1.0.pending ≡ [])
serve_conn_relays_example = serve_conn_relays echo (λ rest. false) ping_then_junk (shards, 7)

answer_unsent_example :
    serve_conn echo (λ rest. false) ping_then_junk (shards, 7)
    ≡ (dropped protocol, (record { sent = []; pending = codes "+PONG" ++ crlf }, (shards, 7)))
unfolding read_command read_inline read_multibulk read_line trim_crlf strip_last fields split_fields
    dispatch command_of to_upper bytes_eq atoi scan_number scan_digits
answer_unsent_example =
    answer_unsent echo (λ rest. false) ping_then_junk (shards, 7) (codes "PING") []
      (codes "*x" ++ crlf) (codes "+PONG" ++ crlf) (shards, 7) refl refl (omega arith) refl refl

-- One command has the connection 0 back, another has taken it again and a third has dialled 1.
abbrev shared : Shared
shared = record {
  pool = record { addr = codes "shard"; idle = []; opened = 0 ∷ 1 ∷ []; closed = [] };
  held = 1 ∷ 0 ∷ [];
}

shared_reached : Reach (unused (codes "shard")) shared
unfolding new_pool count
shared_reached =
    later
      (later (later (later here (dials 0 refl)) (puts 0 [] [] refl (omega arith)))
        (takes 0 [] refl))
      (dials 1 refl)

pool_exclusive_example :
    (count 0 shared.held + count 0 shared.pool.idle + count 0 shared.pool.closed
      ≡ count 0 shared.pool.opened)
    × (count 0 shared.pool.opened ≤ 1)
    × (length shared.pool.idle ≤ max_idle)
pool_exclusive_example = pool_exclusive (codes "shard") shared 0 shared_reached

read_back_world : (c w : ℕ) (r : Result (Bytes × Bytes)) → (read_back echo c r w).1 ≡ w
read_back_world c w (ok r) = refl
read_back_world c w (err e) = refl
