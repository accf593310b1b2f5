-- ===== src/Inventory/Settings/Endpoints.antt =====
-- What loadConfig reads, and what it accepts.
use mathlib.Core.Path.{subst}
use container_patterns.Common.{
  ℕ, zero, suc, ◌*◌, ◌%◌, ◌^◌, ◌<◌, ◌≡◌, ◌≢◌, refl, ap, ◌∙◌, arith, List, [], ◌∷◌, Bytes, codes,
  All, length, ◌⊎◌, inl, inr,
}
use container_patterns.Decimal.{ℤ, pos, atoi, format_int}
use container_patterns.Decimal.RoundTrip.{IsNumber, format_int-IsNumber, atoi-format_int}
use container_patterns.Environment.{trim_space, split, entries, duration}
use container_patterns.Environment.Entries.{
  AllEntries, join_onto, entries-split, entries-nonempty, join_onto-IsGraphic, join_onto-nonempty,
  trim_space-graphic, trim_space-number,
}
use container_patterns.Inventory.Settings.{
  Config, ConfigError, milliseconds_of, timeout_of, with_timeout, with_endpoints, with_raw, getenv,
  load_config,
}

timeout_of-number : (s : Bytes) → IsNumber s → timeout_of s ≡ milliseconds_of (atoi s)
timeout_of-number [] h = absurd h
timeout_of-number (c ∷ cs) h = refl

-- A positive number is taken as it is.
timeout_of-format_int :
    (n : ℕ) → suc n < 2 ^ 63 → timeout_of (trim_space (format_int (suc n))) ≡ inr (pos (suc n))
timeout_of-format_int n small =
    let number = format_int-IsNumber (suc n) in
    ap timeout_of (trim_space-number (format_int (suc n)) number)
    ∙ timeout_of-number (format_int (suc n)) number
    ∙ ap milliseconds_of (atoi-format_int (suc n) small)

abbrev endpoints_or : List Bytes → ConfigError ⊎ Config → List Bytes
endpoints_or es (inl e) = es
endpoints_or es (inr c) = c.leaf_endpoints

module _ (env : Bytes → Bytes) where
  with_raw-nonempty :
      (raw : Bytes) → raw ≢ [] → with_raw env raw ≡ with_endpoints env (entries (split raw b','))
  with_raw-nonempty [] h = absurd (h refl)
  with_raw-nonempty (c ∷ cs) h = refl

  abbrev with_raw_of : Bytes → ConfigError ⊎ Config
  with_raw_of raw = with_raw env (trim_space raw)

  abbrev config_at : List Bytes → ℕ → Config
  config_at es ms = record {
    http_addr = codes ":8080";
    leaf_endpoints = es;
    leaf_path = getenv env (codes "LEAF_PATH") (codes "/shard/availability");
    merge_url = getenv env (codes "MERGE_URL") (codes "http://inventory-merge:9090/merge");
    scatter_timeout = duration (pos ms) 1000000;
  }

  -- If LEAF_ENDPOINTS holds base URLs of visible ASCII characters without commas, joined by commas, and
  -- SCATTER_TIMEOUT_MS a number `ms` from 1 to 2^63 - 1 in decimal, loadConfig succeeds with just these
  -- endpoints in their order, and its timeout is the int64 product of `ms` and a million nanoseconds,
  -- which wraps around at 2^64.
  pub load_config-join :
      (e : Bytes) (es : List Bytes) (ms : ℕ)
      → AllEntries e es
      → env (codes "LEAF_ENDPOINTS") ≡ join_onto e es
      → 0 < ms
      → ms < 2 ^ 63
      → env (codes "SCATTER_TIMEOUT_MS") ≡ format_int ms
      → (c : Config) × (load_config env ≡ inr c)
        × (c.leaf_endpoints ≡ e ∷ es)
        × (c.scatter_timeout ≡ ms * 1000000 % 2 ^ 64)
  unfolding load_config duration
  load_config-join e es zero h raw positive small text = absurd (omega arith)
  load_config-join e es (suc n) h raw positive small text =
      let found =
        ap with_raw_of raw
        ∙ ap (with_raw env) (trim_space-graphic (join_onto e es) (join_onto-IsGraphic e es h))
        ∙ with_raw-nonempty (join_onto e es) (join_onto-nonempty e es h)
        ∙ ap (with_endpoints env) (entries-split e es h)
        ∙ ap (λ t. with_timeout env (e ∷ es) (timeout_of (trim_space t))) text
        ∙ ap (with_timeout env (e ∷ es)) (timeout_of-format_int n small) in
      (config_at (e ∷ es) (suc n), found, refl, refl)

  with_timeout_endpoints :
      (es : List Bytes) (t : ConfigError ⊎ ℤ) (c : Config)
      → with_timeout env es t ≡ inr c
      → es ≡ c.leaf_endpoints
  with_timeout_endpoints es (inl e) c h = cc
  with_timeout_endpoints es (inr ms) c h = ap (endpoints_or es) h

  with_endpoints_accepts :
      (es : List Bytes) (c : Config)
      → with_endpoints env es ≡ inr c
      → All (λ e. e ≢ []) es
      → (0 < length c.leaf_endpoints) × All (λ e. e ≢ []) c.leaf_endpoints
  with_endpoints_accepts [] c h all = cc
  with_endpoints_accepts (e ∷ es) c h all =
      subst (λ l. (0 < length l) × All (λ e. e ≢ []) l)
        (with_timeout_endpoints (e ∷ es)
          (timeout_of (trim_space (env (codes "SCATTER_TIMEOUT_MS")))) c h)
        (omega arith, all)

  with_raw_accepts :
      (raw : Bytes) (c : Config)
      → with_raw env raw ≡ inr c
      → (0 < length c.leaf_endpoints) × All (λ e. e ≢ []) c.leaf_endpoints
  with_raw_accepts [] c h = cc
  with_raw_accepts (r ∷ rs) c h =
      let es = entries (split (r ∷ rs) b',') in
      with_endpoints_accepts es c h (entries-nonempty (split (r ∷ rs) b','))

  -- When loadConfig accepts an environment, it has at least one endpoint and no endpoint is empty.
  pub load_config_accepts :
      (c : Config)
      → load_config env ≡ inr c
      → (0 < length c.leaf_endpoints) × All (λ e. e ≢ []) c.leaf_endpoints
  unfolding load_config
  load_config_accepts c h = with_raw_accepts (trim_space (env (codes "LEAF_ENDPOINTS"))) c h
