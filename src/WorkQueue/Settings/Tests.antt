-- ===== src/WorkQueue/Settings/Tests.antt =====
-- A worker whose HEARTBEAT_S is 0.
use container_patterns.Common.{
  ◌≡◌, refl, arith, none, [], Bytes, bytes_eq, codes, inr, if◌then◌else◌,
}
use container_patterns.Decimal.{format_int}
use container_patterns.Environment.{new_ticker}
use container_patterns.WorkQueue.Settings.Worker.{Config, load_config}
use container_patterns.WorkQueue.Settings.Tickers.{heartbeat_ticker}

abbrev env : Bytes → Bytes
env key =
    if bytes_eq key (codes "POD_NAME")
    then codes "w"
    else if bytes_eq key (codes "HEARTBEAT_S")
    then format_int 0
    else []

env_name : env (codes "POD_NAME") ≡ codes "w"
unfolding bytes_eq
env_name = refl

env_heartbeat : env (codes "HEARTBEAT_S") ≡ format_int 0
unfolding bytes_eq
env_heartbeat = refl

env_other :
    (env (codes "VISIBILITY_S") ≡ [])
    × (env (codes "PROCESS_TIMEOUT_S") ≡ [])
    × (env (codes "POLL_INTERVAL_MS") ≡ [])
unfolding bytes_eq
env_other = (refl, refl, refl)

heartbeat_ticker_example :
    (c : Config) × (load_config env none ≡ inr c)
    × (c.worker_id ≡ codes "w")
    × (new_ticker c.heartbeat ≡ none)
heartbeat_ticker_example =
    heartbeat_ticker env none 119 [] 0 env_name env_other.0 env_other.1 env_other.2 env_heartbeat
      (omega arith)
