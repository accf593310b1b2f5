-- ===== src/LogSink.antt =====
-- services/log-sink/main.go: an in-memory stand-in for Loki. `Ring` is its buffer, `Handlers` the
-- two request handlers; `Ring/Refine` and `Handlers/Laws` hold the proofs.
pub mod Ring
pub mod Handlers
mod Tests
