-- ===== src/Ambassador.antt =====
-- services/cache-ambassador/main.go and pool.go: the proxy that shards keys over backends. The wire
-- format is `container_patterns.Resp`. `Settings` is its environment.
pub mod Crc32
pub mod Pool
pub mod Dispatch
pub mod Server
pub mod Serve
pub mod Settings
mod Tests
