-- ===== src/WorkQueue/Settings/Coordinator.antt =====
-- loadConfig of services/workqueue-coordinator/main.go, which falls back to a default on every error.
-- getEnv is container_patterns.Environment's getenv.
use container_patterns.Common.{ℕ, Option, none, some, [], ◌∷◌, Bytes, codes}
use container_patterns.Decimal.{ℤ, pos, atoi}
use container_patterns.Environment.{getenv, duration}

pub record Config : Type 0 where
  pub redis_addr : Bytes
  pub max_attempts : ℤ
  pub visibility_s : ℤ
  pub reaper_interval : ℕ
  pub http_addr : Bytes

abbrev pub int_or : ℤ → Option ℤ → ℤ
int_or def none = def
int_or def (some n) = n

-- The value, or the default if there is none or it is no number.
abbrev pub int_of : Bytes → ℤ → ℤ
int_of [] def = def
int_of (c ∷ cs) def = int_or def (atoi (c ∷ cs))

unfoldable pub get_env_int : (Bytes → Bytes) → Bytes → ℤ → ℤ
get_env_int env key def = int_of (env key) def

unfoldable pub load_config : (Bytes → Bytes) → Config
unfolding get_env_int duration getenv
load_config env = record {
  redis_addr = getenv env (codes "REDIS_ADDR") (codes "redis-workqueue:6379");
  max_attempts = get_env_int env (codes "MAX_ATTEMPTS") (pos 5);
  visibility_s = get_env_int env (codes "VISIBILITY_S") (pos 30);
  reaper_interval = duration (get_env_int env (codes "REAPER_INTERVAL_S") (pos 2)) 1000000000;
  http_addr = codes ":8080";
}
