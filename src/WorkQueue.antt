-- ===== src/WorkQueue.antt =====
-- The reliable work queue: services/workqueue-coordinator and services/workqueue-framework over one
-- Redis. `Redis` states what the two rely on of the store, `Keys` its key names, `Coordinator` and
-- `Framework` the two services, `Settings` their environment, `Tracking` where a task may be found,
-- and `System` all processes together.
pub mod Redis
pub mod Keys
pub mod Coordinator
pub mod Tracking
pub mod Framework
pub mod System
pub mod Settings
mod Tests
