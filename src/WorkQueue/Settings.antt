-- ===== src/WorkQueue/Settings.antt =====
-- The environment of the queue's two processes: loadConfig, getEnv and getEnvInt of
-- services/workqueue-coordinator/main.go in Coordinator, and loadConfig, getenv, getenvInt and
-- getenvSeconds of services/workqueue-framework/main.go in Worker.
pub mod Coordinator
pub mod Worker
pub mod Tickers
mod Tests
