-- ===== src/Inventory/Root/Relay.antt =====
-- What the root hands to the merge service does not depend on which leaf is faster.
use container_patterns.Common.{ℕ, ◌<◌, ◌≡◌, refl, Bool, true, Option, some, List, Bytes, length}
use container_patterns.Inventory.Scatter.{Partial}
use container_patterns.Inventory.Scatter.Order.{in_order, member, scatter_any_order}
use container_patterns.Inventory.Root.{
  Envelope, MergeCall, post, relay_merge, envelope_for, handle_availability,
}

-- A POST whose body is valid JSON is answered with what the merge service makes of the partials of all
-- leaves in the configured order, in whatever order the leaves' requests end.
pub availability_any_order :
    (valid : Bytes → Bool) (marshal : Envelope → Option Bytes) (merge : Bytes → MergeCall)
    (call : Bytes → ℕ → Bytes → Partial) (eps : List Bytes) (order : List ℕ) (body : Bytes)
    → valid body ≡ true
    → ((i : ℕ) → i < length eps → member i order ≡ true)
    → handle_availability valid marshal merge call eps order post (some body)
      ≡ relay_merge marshal merge (envelope_for body (in_order (call body) 0 eps))
unfolding handle_availability
availability_any_order valid marshal merge call eps order body v all =
    rw (v, scatter_any_order (call body) eps order all) refl
