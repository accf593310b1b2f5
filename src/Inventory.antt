-- ===== src/Inventory.antt =====
-- services/inventory-root/main.go: the root of the availability query, which asks every leaf and hands
-- what they say to the merge service. The HTTP calls end as a parameter says; JSON's validity test,
-- its decoding and its encoding are parameters too.
pub mod Scatter
pub mod Root
pub mod Settings
