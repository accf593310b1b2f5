-- ===== src/Inventory/Scatter.antt =====
-- callLeaf, extractShard, scatter and summarize of services/inventory-root/main.go.
pub mod Order
pub mod Counts
use container_patterns.Common.{
  ℕ, zero, suc, ◌+◌, Bool, true, false, ◌||◌, Option, none, some, List, [], ◌∷◌, ◌++◌, Bytes, codes,
  length, get_elem?, set, replicate, ltb, leb, if◌then◌else◌,
}
use container_patterns.Decimal.{pos, format_int}

pub record Partial : Type 0 where
  pub endpoint : Bytes
  pub shard : Bytes
  pub ok : Bool
  pub status : ℕ
  pub latency_ms : ℕ
  pub error : Bytes
  pub body : Bytes

pub record Meta : Type 0 where
  pub scattered : ℕ
  pub succeeded : ℕ
  pub failed : ℕ

-- How a leaf's request ends: it cannot be built, its deadline passes, the call fails, the answer's body
-- cannot be read, or there is an answer.
pub data LeafCall : Type 0 where
  bad_request : Bytes → LeafCall
  timed_out : LeafCall
  call_failed : Bytes → LeafCall
  unreadable : ℕ → Bytes → LeafCall
  answered : ℕ → Bytes → LeafCall

-- `Partial{}`, and callLeaf's first line.
unfoldable pub zero_partial : Partial
zero_partial = record {
  endpoint = [];
  shard = [];
  ok = false;
  status = 0;
  latency_ms = 0;
  error = [];
  body = [];
}

unfoldable pub failed_partial : Bytes → ℕ → ℕ → Bytes → Partial
failed_partial endpoint latency status text = record {
  endpoint = endpoint;
  shard = [];
  ok = false;
  status = status;
  latency_ms = latency;
  error = text;
  body = [];
}

-- The label that a decoded body carries, if it can be decoded.
abbrev pub extract_shard : Option Bytes → Bytes
extract_shard none = []
extract_shard (some label) = label

module _ (valid : Bytes → Bool) (probe : Bytes → Option Bytes) where
  unfoldable pub call_leaf : Bytes → ℕ → LeafCall → Partial
  unfolding failed_partial
  call_leaf endpoint latency (bad_request e) =
      failed_partial endpoint latency 0 (codes "bad request: " ++ e)
  call_leaf endpoint latency timed_out = failed_partial endpoint latency 0 (codes "timeout")
  call_leaf endpoint latency (call_failed e) = failed_partial endpoint latency 0 e
  call_leaf endpoint latency (unreadable status e) =
      failed_partial endpoint latency status (codes "failed to read leaf response: " ++ e)
  call_leaf endpoint latency (answered status body) =
      if ltb status 200 || leb 300 status
      then failed_partial endpoint latency status
          (codes "leaf returned status " ++ format_int status)
      else if valid body
      then record {
        endpoint = endpoint;
        shard = extract_shard (probe body);
        ok = true;
        status = status;
        latency_ms = latency;
        error = [];
        body = body;
      }
      else failed_partial endpoint latency status (codes "leaf returned non-JSON body")

-- One goroutine's write, if there is such a leaf: `call i` is its callLeaf.
unfoldable pub write_slot : (ℕ → Bytes → Partial) → List Bytes → ℕ → List Partial → List Partial
write_slot call endpoints i slots = elim (get_elem? endpoints i) [
  | none ↦ slots
  | some ep ↦ set slots i (call i ep)
]

-- The goroutines, in the order in which they end.
unfoldable pub run_leaves :
    (ℕ → Bytes → Partial) → List Bytes → List ℕ → List Partial → List Partial
run_leaves call endpoints [] slots = slots
run_leaves call endpoints (i ∷ order) slots =
    run_leaves call endpoints order (write_slot call endpoints i slots)

unfoldable pub scatter : (ℕ → Bytes → Partial) → List Bytes → List ℕ → List Partial
unfolding run_leaves zero_partial
scatter call endpoints order =
    run_leaves call endpoints order (replicate (length endpoints) zero_partial)

abbrev pub tally : Bool → Meta → Meta
tally true m = record m { succeeded = suc m.succeeded }
tally false m = record m { failed = suc m.failed }

unfoldable pub tally_all : List Partial → Meta → Meta
tally_all [] m = m
tally_all (p ∷ ps) m = tally_all ps (tally p.ok m)

unfoldable pub summarize : List Partial → Meta
unfolding tally_all
summarize ps = tally_all ps (record { scattered = length ps; succeeded = 0; failed = 0 })
