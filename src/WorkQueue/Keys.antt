-- ===== src/WorkQueue/Keys.antt =====
-- The key names of services/workqueue-coordinator/keys.go and of the framework's constants.
use container_patterns.Common.{◌≡◌, refl, ◌++◌, Bytes, bytes_eq, codes, false}

unfoldable pub ready_key : Bytes
ready_key = codes "orderforge:ready"

unfoldable pub inflight_key : Bytes
inflight_key = codes "orderforge:inflight"

unfoldable pub dead_key : Bytes
dead_key = codes "orderforge:dead"

unfoldable pub done_key : Bytes
done_key = codes "orderforge:done"

unfoldable pub settle_pending_key : Bytes
settle_pending_key = codes "orderforge:settle:pending"

unfoldable pub task_key : Bytes → Bytes
task_key id = codes "orderforge:task:" ++ id

unfoldable pub order_key : Bytes → Bytes
order_key id = codes "orderforge:order:" ++ id

unfoldable pub processing_key : Bytes → Bytes
processing_key w = codes "orderforge:processing:" ++ w

unfoldable pub worker_key : Bytes → Bytes
worker_key w = codes "orderforge:worker:" ++ w

-- The list keys, and the set keys, are different from one another.
pub keys_differ :
    (bytes_eq ready_key dead_key ≡ false)
    × (bytes_eq dead_key ready_key ≡ false)
    × (bytes_eq done_key settle_pending_key ≡ false)
    × (bytes_eq settle_pending_key done_key ≡ false)
unfolding ready_key dead_key done_key settle_pending_key bytes_eq
keys_differ = (refl, refl, refl, refl)

pub processing_key_differs :
    (w : Bytes)
    → (bytes_eq ready_key (processing_key w) ≡ false)
      × (bytes_eq (processing_key w) ready_key ≡ false)
      × (bytes_eq dead_key (processing_key w) ≡ false)
      × (bytes_eq (processing_key w) dead_key ≡ false)
unfolding ready_key dead_key processing_key bytes_eq
processing_key_differs w = (refl, refl, refl, refl)
