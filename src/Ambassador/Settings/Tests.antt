-- ===== src/Ambassador/Settings/Tests.antt =====
-- The server on the default shards, after a command.
use container_patterns.Common.{
  ℕ, suc, ◌≡◌, refl, arith, true, false, some, List, [], ◌∷◌, ◌++◌, Bytes, codes, All, length, inr,
}
use container_patterns.Resp.Wire.{crlf}
use container_patterns.Ambassador.Pool.{Net}
use container_patterns.Ambassador.Pool.Balance.{Balanced}
use container_patterns.Ambassador.Dispatch.{Answer, new_server, dispatch, command_of, to_upper}
use container_patterns.Ambassador.Settings.{Config, load_config}
use container_patterns.Ambassador.Settings.Configured.{fresh, then_one, configured_answers}

-- The world is the next connection's number.
abbrev silent : Net
silent = record {
  World = ℕ;
  dial = λ addr n. (some n, suc n);
  set_deadline = λ c n. (true, n);
  clear_deadline = λ c n. (true, n);
  write = λ c cmd n. (true, n);
  incoming = λ c n. codes "+OK" ++ crlf;
  advance = λ c rest n. n;
  close = λ c n. n;
}

abbrev shard_names : List Bytes
shard_names =
    codes "cache-shard-0.cache-shards:6379"
    ∷ codes "cache-shard-1.cache-shards:6379"
    ∷ codes "cache-shard-2.cache-shards:6379"
    ∷ []

abbrev config : Config
config = record { listen_addr = codes "127.0.0.1:6380"; shards = shard_names }

config_lem : load_config (λ key. []) ≡ inr config
unfolding load_config
config_lem = refl

pinged :
    dispatch silent (codes "PING" ∷ []) (new_server shard_names, 0)
    ≡ some ((codes "+PONG" ++ crlf, false), (new_server shard_names, 0))
unfolding dispatch command_of to_upper
pinged = refl

configured_answers_example :
    (a : Answer silent) × (dispatch silent
        (codes "get" ∷ codes "k" ∷ [])
        (new_server shard_names, 0)
      ≡ some a)
    × (length a.1.0 ≡ 3)
    × All (Balanced []) a.1.0
configured_answers_example =
    configured_answers silent (λ key. []) config 0 (new_server shard_names, 0) (codes "get")
      (codes "k" ∷ []) config_lem (omega arith)
      (then_one (codes "PING") [] ((codes "+PONG" ++ crlf, false), (new_server shard_names, 0))
        fresh pinged)
