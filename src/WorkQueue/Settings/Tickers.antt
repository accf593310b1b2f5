-- ===== src/WorkQueue/Settings/Tickers.antt =====
-- The tickers that the two processes make of their configurations.
use container_patterns.Common.{
  ℕ, zero, suc, ◌*◌, ◌%◌, ◌^◌, ◌<◌, ◌≡◌, refl, ap, ◌∙◌, arith, Option, none, some, [], ◌∷◌, Bytes,
  codes, inr, lt→ltb,
}
use container_patterns.Decimal.{ℤ, pos, atoi, format_int}
use container_patterns.Decimal.RoundTrip.{IsNumber, format_int-IsNumber, atoi-format_int}
use container_patterns.Environment.{getenv, duration, new_ticker}
use container_patterns.WorkQueue.Settings.Coordinator
use container_patterns.WorkQueue.Settings.Worker
use container_patterns.WorkQueue.Settings.Worker.{ConfigError, getenv_seconds, getenv_int}

-- What NewTicker makes of `n` seconds: it panics at 0.
abbrev pub ticker_of_seconds : ℕ → Option ℕ
ticker_of_seconds zero = none
ticker_of_seconds (suc n) = some (suc n * 1000000000)

new_ticker_seconds :
    (n : ℕ)
    → n * 1000000000 < 2 ^ 63
    → new_ticker (duration (pos n) 1000000000) ≡ ticker_of_seconds n
unfolding new_ticker duration
new_ticker_seconds zero h = refl
new_ticker_seconds (suc n) h =
    let exact : suc n * 1000000000 % 2 ^ 64 ≡ suc n * 1000000000 = omega (arith, h) in
    rw
      (
        exact,
        new_ticker,
        lt→ltb 0 (suc n * 1000000000) (omega arith),
        lt→ltb (suc n * 1000000000) (2 ^ 63) h,
      )
      refl

coordinator_reads :
    (text : Bytes) (def : ℤ)
    → IsNumber text
    → Coordinator.int_of text def ≡ Coordinator.int_or def (atoi text)
coordinator_reads [] def h = absurd h
coordinator_reads (c ∷ cs) def h = refl

worker_reads :
    (key text : Bytes) (def : ℤ)
    → IsNumber text
    → Worker.int_of key text def ≡ Worker.parsed key (atoi text)
worker_reads key [] def h = absurd h
worker_reads key (c ∷ cs) def h = refl

-- If REAPER_INTERVAL_S is a number `n` of seconds in decimal that fits in a time.Duration, the coordinator
-- takes it as its interval: the reaper's ticker has that interval, and at 0, which loadConfig does
-- not refuse, time.NewTicker panics.
pub reaper_ticker :
    (env : Bytes → Bytes) (n : ℕ)
    → env (codes "REAPER_INTERVAL_S") ≡ format_int n
    → n * 1000000000 < 2 ^ 63
    → new_ticker (Coordinator.load_config env).reaper_interval ≡ ticker_of_seconds n
unfolding Coordinator.load_config Coordinator.get_env_int
reaper_ticker env n text small =
    ap (λ t. new_ticker (duration (Coordinator.int_of t (pos 2)) 1000000000)) text
    ∙ ap (λ z. new_ticker (duration z 1000000000))
        (coordinator_reads (format_int n) (pos 2) (format_int-IsNumber n)
          ∙ ap (Coordinator.int_or (pos 2)) (atoi-format_int n (omega arith)))
    ∙ new_ticker_seconds n small

heartbeat_reads :
    (n : ℕ)
    → n * 1000000000 < 2 ^ 63
    → Worker.int_of (codes "HEARTBEAT_S") (format_int n) (pos 5) ≡ inr (pos n)
heartbeat_reads n small =
    worker_reads (codes "HEARTBEAT_S") (format_int n) (pos 5) (format_int-IsNumber n)
    ∙ ap (Worker.parsed (codes "HEARTBEAT_S")) (atoi-format_int n (omega arith))

-- The worker's configuration whose only number is the heartbeat.
abbrev configured : (Bytes → Bytes) → Bytes → ℕ → Worker.Config
configured env worker n = record {
  redis_addr = getenv env (codes "REDIS_ADDR") (codes "redis-workqueue:6379");
  worker_id = worker;
  work_dir = getenv env (codes "WORK_DIR") (codes "/work");
  health_addr = getenv env (codes "HEALTH_ADDR") (codes ":8091");
  visibility = duration (pos 30) 1000000000;
  heartbeat = duration (pos n) 1000000000;
  process_timeout = duration (pos 300) 1000000000;
  poll_interval = duration (pos 100) 1000000;
}

-- If HEARTBEAT_S is a number of seconds in decimal that fits in a time.Duration, POD_NAME is set
-- and the worker's other numbers are not, the worker's loadConfig succeeds, with the name as
-- worker id, and the heartbeat's ticker has that interval; at 0, which loadConfig does not refuse,
-- time.NewTicker panics.
pub heartbeat_ticker :
    (env : Bytes → Bytes) (host : Option Bytes) (p : ℕ) (ps : Bytes) (n : ℕ)
    → env (codes "POD_NAME") ≡ p ∷ ps
    → env (codes "VISIBILITY_S") ≡ []
    → env (codes "PROCESS_TIMEOUT_S") ≡ []
    → env (codes "POLL_INTERVAL_MS") ≡ []
    → env (codes "HEARTBEAT_S") ≡ format_int n
    → n * 1000000000 < 2 ^ 63
    → (c : Worker.Config) × (Worker.load_config env host ≡ inr c)
      × (c.worker_id ≡ p ∷ ps)
      × (new_ticker c.heartbeat ≡ ticker_of_seconds n)
unfolding Worker.load_config Worker.getenv_seconds Worker.getenv_int getenv
heartbeat_ticker env host p ps n pod vis timeout poll text small = (
  configured env (p ∷ ps) n,
  rw (pod, vis, timeout, poll, text, heartbeat_reads n small) refl,
  refl,
  new_ticker_seconds n small,
)
