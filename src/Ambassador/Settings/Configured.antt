-- ===== src/Ambassador/Settings/Configured.antt =====
-- A server on the shards of an accepted configuration.
use mathlib.Core.Path.{subst}
use mathlib.Core.Option.{some-injective}
use container_patterns.Common.{
  ℕ, ◌^◌, ◌<◌, ◌≡◌, ◌≢◌, refl, sym, ap, ◌∙◌, arith, some, List, [], ◌∷◌, Bytes, codes, All, length,
  length-map, ◌⊎◌, inl, inr,
}
use container_patterns.Environment.{getenv, or_default, split, entries}
use container_patterns.Environment.Entries.{
  AllEntries, join_onto, join_onto-nonempty, entries-split,
}
use container_patterns.Ambassador.Pool.{Net, new_pool}
use container_patterns.Ambassador.Pool.Balance.{Balanced, count}
use container_patterns.Ambassador.Dispatch.{Server, Answer, new_server, dispatch}
use container_patterns.Ambassador.Dispatch.Routing.{dispatch-Balanced}
use container_patterns.Ambassador.Settings.{
  Config, ConfigError, default_shards, with_shards, load_config,
}

abbrev shards_or : List Bytes → ConfigError ⊎ Config → List Bytes
shards_or ss (inl e) = ss
shards_or ss (inr c) = c.shards

or_default-nonempty : (def v : Bytes) → v ≢ [] → or_default def v ≡ v
or_default-nonempty def [] h = absurd (h refl)
or_default-nonempty def (c ∷ cs) h = refl

with_shards_some :
    (env : Bytes → Bytes) (ss : List Bytes) (c : Config)
    → with_shards env ss ≡ inr c
    → 0 < length c.shards
with_shards_some env [] c h = cc
with_shards_some env (s ∷ ss) c h =
    subst (λ l. 0 < length l) (ap (shards_or (s ∷ ss)) h) (omega arith)

new_pool-Balanced : (addr : Bytes) → Balanced [] (new_pool addr)
unfolding new_pool count
new_pool-Balanced addr = record { whole = λ c. refl; few = omega arith }

new_server-Balanced : (addrs : List Bytes) → All (Balanced []) (new_server addrs)
unfolding new_server
new_server-Balanced [] = tt
new_server-Balanced (a ∷ addrs) = (new_pool-Balanced a, new_server-Balanced addrs)

module _ (N : Net) where
  open N use {World}

  -- A server after it has answered some commands, one after the other.
  pub data Answered (s : Server N) : Server N → Type 0 where
    fresh : Answered s s
    then_one :
        {t : Server N} (name : Bytes) (args : List Bytes) (a : Answer N)
        → Answered s t
        → dispatch N (name ∷ args) t ≡ some a
        → Answered s a.1

  -- There are `n` pools, and they are balanced.
  record Healthy (n : ℕ) (s : Server N) : Type 0 where
    sizes : length s.0 ≡ n
    balanced : All (Balanced []) s.0

  Healthy-dispatch :
      (n : ℕ) (name : Bytes) (args : List Bytes) (s : Server N)
      → 0 < n
      → n < 2 ^ 32
      → Healthy n s
      → (a : Answer N) × (dispatch N (name ∷ args) s ≡ some a) × Healthy n a.1
  Healthy-dispatch n name args (pools, w) some_shard few h =
      let (a, e, sizes, balanced) =
        dispatch-Balanced N name args pools w
          (omega (arith, some_shard, h.sizes), omega (arith, few, h.sizes)) h.balanced in
      (a, e, record { sizes = sizes ∙ h.sizes; balanced = balanced })

  Answered-Healthy :
      (n : ℕ) {s t : Server N} → 0 < n → n < 2 ^ 32 → Answered s t → Healthy n s → Healthy n t
  Answered-Healthy n p k fresh h = h
  Answered-Healthy n p k (then_one {t} name args a r e) h =
      let (b, f, healthy) = Healthy-dispatch n name args t p k (Answered-Healthy n p k r h) in
      subst (λ x. Healthy n x.1) (some-injective b a (sym f ∙ e)) healthy

  new_server-Healthy :
      (addrs : List Bytes) (w : World) → Healthy (length addrs) (new_server addrs, w)
  unfolding new_server
  new_server-Healthy addrs w = record {
    sizes = length-map new_pool addrs;
    balanced = new_server-Balanced addrs;
  }

  -- Once loadConfig has accepted an environment that names fewer than 2^32 shards, the server that
  -- newServer makes of them answers every command, after any commands before it, and no shard index is
  -- out of range: dispatch does not panic. The number of pools stays that of the shards, and each of them
  -- keeps or closes every connection that it has dialled.
  pub configured_answers :
      (env : Bytes → Bytes) (c : Config) (w : World) (s : Server N) (name : Bytes)
      (args : List Bytes)
      → load_config env ≡ inr c
      → length c.shards < 2 ^ 32
      → Answered (new_server c.shards, w) s
      → (a : Answer N) × (dispatch N (name ∷ args) s ≡ some a)
        × (length a.1.0 ≡ length c.shards)
        × All (Balanced []) a.1.0
  unfolding load_config
  configured_answers env c w s name args h few r =
      let positive =
        with_shards_some env (entries (split (getenv env (codes "SHARDS") default_shards) b',')) c
          h in
      let (a, e, healthy) =
        Healthy-dispatch (length c.shards) name args s positive few
          (Answered-Healthy (length c.shards) positive few r (new_server-Healthy c.shards w)) in
      (a, e, healthy.sizes, healthy.balanced)

-- If SHARDS holds addresses of visible ASCII characters without commas, joined by commas, loadConfig
-- succeeds with just these addresses in their order.
pub load_config_shards :
    (env : Bytes → Bytes) (e : Bytes) (es : List Bytes)
    → AllEntries e es
    → env (codes "SHARDS") ≡ join_onto e es
    → (c : Config) × (load_config env ≡ inr c) × (c.shards ≡ e ∷ es)
unfolding load_config getenv
load_config_shards env e es h raw = (
  record {
    listen_addr = getenv env (codes "LISTEN_ADDR") (codes "127.0.0.1:6380");
    shards = e ∷ es;
  },
  ap (λ r. with_shards env (entries (split (or_default default_shards r) b','))) raw
      ∙ ap (λ r. with_shards env (entries (split r b',')))
          (or_default-nonempty default_shards (join_onto e es) (join_onto-nonempty e es h))
      ∙ ap (with_shards env) (entries-split e es h),
  refl,
)
