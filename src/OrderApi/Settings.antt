-- ===== src/OrderApi/Settings.antt =====
-- loadConfig of services/order-api/main.go. Its env is container_patterns.Environment's getenv.
use container_patterns.Common.{Bytes, codes}
use container_patterns.Environment.{getenv}

pub record Config : Type 0 where
  pub http_addr : Bytes
  pub stats_addr : Bytes
  pub cache_addr : Bytes
  pub log_dir : Bytes
  pub inventory_url : Bytes
  pub coordinator_url : Bytes

unfoldable pub load_config : (Bytes → Bytes) → Config
unfolding getenv
load_config env = record {
  http_addr = getenv env (codes "HTTP_ADDR") (codes ":8080");
  stats_addr = getenv env (codes "STATS_ADDR") (codes "127.0.0.1:9000");
  cache_addr = getenv env (codes "CACHE_ADDR") (codes "127.0.0.1:6380");
  log_dir = getenv env (codes "LOG_DIR") (codes "/var/log/app");
  inventory_url = getenv env (codes "INVENTORY_ROOT_URL") (codes "http://inventory-root:8080");
  coordinator_url =
      getenv env (codes "COORDINATOR_URL") (codes "http://workqueue-coordinator:8080");
}
