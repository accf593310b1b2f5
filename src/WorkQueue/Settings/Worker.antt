-- ===== src/WorkQueue/Settings/Worker.antt =====
-- loadConfig of services/workqueue-framework/main.go, with its errors as values. Its getenv is
-- container_patterns.Environment's.
use container_patterns.Common.{ℕ, Option, none, some, [], ◌∷◌, Bytes, codes, ◌⊎◌, inl, inr}
use container_patterns.Decimal.{ℤ, pos, atoi}
use container_patterns.Environment.{getenv, duration}

pub record Config : Type 0 where
  pub redis_addr : Bytes
  pub worker_id : Bytes
  pub work_dir : Bytes
  pub health_addr : Bytes
  pub visibility : ℕ
  pub heartbeat : ℕ
  pub process_timeout : ℕ
  pub poll_interval : ℕ

-- The error names the variable that is no number.
pub data ConfigError : Type 0 where
  no_worker_id : ConfigError
  not_a_number : Bytes → ConfigError

abbrev pub parsed : Bytes → Option ℤ → ConfigError ⊎ ℤ
parsed key none = inl (not_a_number key)
parsed key (some n) = inr n

abbrev pub int_of : Bytes → Bytes → ℤ → ConfigError ⊎ ℤ
int_of key [] def = inr def
int_of key (c ∷ cs) def = parsed key (atoi (c ∷ cs))

unfoldable pub getenv_int : (Bytes → Bytes) → Bytes → ℤ → ConfigError ⊎ ℤ
getenv_int env key def = int_of key (env key) def

abbrev pub times : ℕ → ConfigError ⊎ ℤ → ConfigError ⊎ ℕ
times unit (inl e) = inl e
times unit (inr n) = inr (duration n unit)

unfoldable pub getenv_seconds : (Bytes → Bytes) → Bytes → ℤ → ConfigError ⊎ ℕ
unfolding getenv_int
getenv_seconds env key def = times 1000000000 (getenv_int env key def)

-- What comes after a step that may fail.
abbrev pub and_then {ℓ} :
    {A : Type ℓ} → ConfigError ⊎ A → (A → ConfigError ⊎ Config) → ConfigError ⊎ Config
and_then (inl e) f = inl e
and_then (inr a) f = f a

-- POD_NAME, or the name of the host, which os.Hostname gives or not.
abbrev pub worker_of : Bytes → Option Bytes → ConfigError ⊎ Bytes
worker_of [] none = inl no_worker_id
worker_of [] (some []) = inl no_worker_id
worker_of [] (some (h ∷ hs)) = inr (h ∷ hs)
worker_of (c ∷ cs) host = inr (c ∷ cs)

unfoldable pub load_config : (Bytes → Bytes) → Option Bytes → ConfigError ⊎ Config
unfolding getenv_seconds getenv_int getenv
load_config env host = and_then (worker_of (getenv env (codes "POD_NAME") []) host) (λ worker.
    and_then (getenv_seconds env (codes "VISIBILITY_S") (pos 30)) (λ visibility.
      and_then (getenv_seconds env (codes "HEARTBEAT_S") (pos 5)) (λ heartbeat.
        and_then (getenv_seconds env (codes "PROCESS_TIMEOUT_S") (pos 300)) (λ process_timeout.
          and_then (times 1000000 (getenv_int env (codes "POLL_INTERVAL_MS") (pos 100)))
            (λ poll_interval. inr (record {
              redis_addr = getenv env (codes "REDIS_ADDR") (codes "redis-workqueue:6379");
              worker_id = worker;
              work_dir = getenv env (codes "WORK_DIR") (codes "/work");
              health_addr = getenv env (codes "HEALTH_ADDR") (codes ":8091");
              visibility = visibility;
              heartbeat = heartbeat;
              process_timeout = process_timeout;
              poll_interval = poll_interval;
            }))))))
