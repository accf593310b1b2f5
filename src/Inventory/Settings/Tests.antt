-- ===== src/Inventory/Settings/Tests.antt =====
-- An environment with two leaves.
use container_patterns.Common.{
  ℕ, ◌*◌, ◌%◌, ◌^◌, ◌≡◌, ◌≤◌, refl, arith, [], ◌∷◌, Bytes, bytes_eq, codes, inr, if◌then◌else◌,
}
use container_patterns.Decimal.{format_int}
use container_patterns.Environment.Entries.{IsPlain, AllEntries, join_onto}
use container_patterns.Inventory.Settings.{Config, load_config}
use container_patterns.Inventory.Settings.Endpoints.{load_config-join}

abbrev leaf_a : Bytes
leaf_a = codes "a"

abbrev leaf_b : Bytes
leaf_b = codes "b"

abbrev env : Bytes → Bytes
env key =
    if bytes_eq key (codes "LEAF_ENDPOINTS")
    then join_onto leaf_a (leaf_b ∷ [])
    else if bytes_eq key (codes "SCATTER_TIMEOUT_MS")
    then format_int 250
    else []

env_leaves : env (codes "LEAF_ENDPOINTS") ≡ join_onto leaf_a (leaf_b ∷ [])
unfolding bytes_eq
env_leaves = refl

env_timeout : env (codes "SCATTER_TIMEOUT_MS") ≡ format_int 250
unfolding bytes_eq
env_timeout = refl

letter : (c : ℕ) → 48 ≤ c → c ≤ 126 → IsPlain c
letter c h k = ((omega arith, k), λ e. omega (arith, e))

leaves-AllEntries : AllEntries leaf_a (leaf_b ∷ [])
leaves-AllEntries =
    ((letter 97 (omega arith) (omega arith), tt), ((letter 98 (omega arith) (omega arith), tt), tt))

load_config-join_example :
    (c : Config) × (load_config env ≡ inr c)
    × (c.leaf_endpoints ≡ leaf_a ∷ leaf_b ∷ [])
    × (c.scatter_timeout ≡ 250 * 1000000 % 2 ^ 64)
load_config-join_example =
    load_config-join env leaf_a (leaf_b ∷ []) 250 leaves-AllEntries env_leaves (omega arith)
      (omega arith) env_timeout
