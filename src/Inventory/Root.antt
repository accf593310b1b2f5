-- ===== src/Inventory/Root.antt =====
-- handleAvailability and relayMerge of services/inventory-root/main.go.
pub mod Relay
use container_patterns.Common.{
  ℕ, ◌++◌, Bool, true, false, Option, none, some, List, [], ◌∷◌, Bytes, codes, if◌then◌else◌,
}
use container_patterns.Inventory.Scatter.{Partial, Meta, scatter, summarize}

pub record Envelope : Type 0 where
  pub query : Bytes
  pub partials : List Partial
  pub meta : Meta

-- How the request to the merge service ends.
pub data MergeCall : Type 0 where
  no_request : MergeCall
  merge_failed : Bytes → MergeCall
  merge_unreadable : MergeCall
  merged : ℕ → Bytes → Bytes → MergeCall

-- A response: its status, its content type and its body.
pub data Response : Type 0 where
  failure : ℕ → Bytes → Response
  success : ℕ → Bytes → Bytes → Response

pub data Method : Type 0 where
  post : Method
  other : Method

abbrev pub content_type : Bytes → Bytes
content_type [] = codes "application/json"
content_type (c ∷ cs) = c ∷ cs

abbrev pub relayed : MergeCall → Response
relayed no_request = failure 500 (codes "failed to build merge request")
relayed (merge_failed e) = failure 502 (codes "merge request failed: " ++ e)
relayed merge_unreadable = failure 502 (codes "failed to read merge response")
relayed (merged status ct body) = success status (content_type ct) body

-- The payload is what `json.Marshal` gives; `merge` is the call.
unfoldable pub relay_merge : (Envelope → Option Bytes) → (Bytes → MergeCall) → Envelope → Response
relay_merge marshal merge env = elim (marshal env) [
  | none ↦ failure 500 (codes "failed to encode merge payload")
  | some payload ↦ relayed (merge payload)
]

unfoldable pub envelope_for : Bytes → List Partial → Envelope
unfolding summarize
envelope_for body ps = record { query = body; partials = ps; meta = summarize ps }

-- `call` is callLeaf of a leaf on the body, and `order` the order in which the leaves end.
unfoldable pub handle_availability :
    (Bytes → Bool)
    → (Envelope → Option Bytes)
    → (Bytes → MergeCall)
    → (Bytes → ℕ → Bytes → Partial)
    → List Bytes
    → List ℕ
    → Method
    → Option Bytes
    → Response
unfolding relay_merge scatter envelope_for
handle_availability valid marshal merge call endpoints order other read =
    failure 405 (codes "method not allowed")
handle_availability valid marshal merge call endpoints order post none =
    failure 400 (codes "failed to read request body")
handle_availability valid marshal merge call endpoints order post (some body) =
    if valid body
    then relay_merge marshal merge (envelope_for body (scatter (call body) endpoints order))
    else failure 400 (codes "request body must be valid JSON")
