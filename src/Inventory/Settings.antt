-- ===== src/Inventory/Settings.antt =====
-- loadConfig and getenv of services/inventory-root/main.go, with its errors as values.
pub mod Endpoints
mod Tests
use container_patterns.Common.{
  ℕ, zero, suc, ◌==◌, Option, none, some, List, [], ◌∷◌, Bytes, codes, if◌then◌else◌, ◌⊎◌, inl, inr,
}
use container_patterns.Decimal.{ℤ, pos, negsuc, atoi}
use container_patterns.Environment.{or_default, trim_space, split, entries, duration}

pub record Config : Type 0 where
  pub http_addr : Bytes
  pub leaf_endpoints : List Bytes
  pub leaf_path : Bytes
  pub merge_url : Bytes
  pub scatter_timeout : ℕ

pub data ConfigError : Type 0 where
  endpoints_required : ConfigError
  endpoints_empty : ConfigError
  timeout_not_positive : ConfigError

-- The value is trimmed before it is compared with the empty text.
unfoldable pub getenv : (Bytes → Bytes) → Bytes → Bytes → Bytes
getenv env key def = or_default def (trim_space (env key))

-- An `n` that is not above 0 is refused.
abbrev pub milliseconds_of : Option ℤ → ConfigError ⊎ ℤ
milliseconds_of none = inl timeout_not_positive
milliseconds_of (some (pos zero)) = inl timeout_not_positive
milliseconds_of (some (pos (suc n))) = inr (pos (suc n))
milliseconds_of (some (negsuc n)) = inl timeout_not_positive

abbrev pub timeout_of : Bytes → ConfigError ⊎ ℤ
timeout_of [] = inr (pos 300)
timeout_of (c ∷ cs) = milliseconds_of (atoi (c ∷ cs))

module _ (env : Bytes → Bytes) where
  abbrev pub with_timeout : List Bytes → ConfigError ⊎ ℤ → ConfigError ⊎ Config
  with_timeout es (inl e) = inl e
  with_timeout es (inr ms) = inr (record {
    http_addr = codes ":8080";
    leaf_endpoints = es;
    leaf_path = getenv env (codes "LEAF_PATH") (codes "/shard/availability");
    merge_url = getenv env (codes "MERGE_URL") (codes "http://inventory-merge:9090/merge");
    scatter_timeout = duration ms 1000000;
  })

  abbrev pub with_endpoints : List Bytes → ConfigError ⊎ Config
  with_endpoints [] = inl endpoints_empty
  with_endpoints (e ∷ es) =
      with_timeout (e ∷ es) (timeout_of (trim_space (env (codes "SCATTER_TIMEOUT_MS"))))

  abbrev pub with_raw : Bytes → ConfigError ⊎ Config
  with_raw [] = inl endpoints_required
  with_raw (c ∷ cs) = with_endpoints (entries (split (c ∷ cs) b','))

  unfoldable pub load_config : ConfigError ⊎ Config
  load_config = with_raw (trim_space (env (codes "LEAF_ENDPOINTS")))
