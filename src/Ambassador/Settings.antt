-- ===== src/Ambassador/Settings.antt =====
-- loadConfig of services/cache-ambassador/main.go. Its error is a value, and its getenv is
-- container_patterns.Environment's.
pub mod Configured
mod Tests
use container_patterns.Common.{List, [], ◌∷◌, Bytes, codes, ◌⊎◌, inl, inr}
use container_patterns.Environment.{getenv, split, entries}

pub record Config : Type 0 where
  pub listen_addr : Bytes
  pub shards : List Bytes

pub data ConfigError : Type 0 where
  no_shards : ConfigError

abbrev pub default_shards : Bytes
default_shards =
    codes
      "cache-shard-0.cache-shards:6379,cache-shard-1.cache-shards:6379,cache-shard-2.cache-shards:6379"

module _ (env : Bytes → Bytes) where
  abbrev pub with_shards : List Bytes → ConfigError ⊎ Config
  with_shards [] = inl no_shards
  with_shards (s ∷ ss) = inr (record {
    listen_addr = getenv env (codes "LISTEN_ADDR") (codes "127.0.0.1:6380");
    shards = s ∷ ss;
  })

  unfoldable pub load_config : ConfigError ⊎ Config
  unfolding entries split getenv
  load_config = with_shards (entries (split (getenv env (codes "SHARDS") default_shards) b','))
