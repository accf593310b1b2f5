-- ===== src/OrderApi.antt =====
-- services/order-api: the public API, which takes orders, its counters and its log files.
pub mod Stats
pub mod Orders
pub mod Ids
pub mod Settings
pub mod Concurrent
pub mod Log
mod Tests
