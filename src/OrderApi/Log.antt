-- ===== src/OrderApi/Log.antt =====
-- services/order-api/logger.go: the two files, as their contents. encoding/json is a parameter, `none` is
-- its error. A write holds the mutex, so that it is one step, and is taken to succeed. A latency is
-- its whole number of microseconds, as in container_patterns.OrderApi.Stats.
pub mod Lines
pub mod Events
pub mod Files
use container_patterns.Common.{ℕ, Option, none, some, List, [], ◌∷◌, ◌++◌, Bytes, codes}
use container_patterns.OrderApi.Stats.{Stats, record_http}

pub record LogLine : Type 0 where
  pub ts : Bytes
  pub level : Bytes
  pub logger : Bytes
  pub method : Bytes
  pub path : Bytes
  pub status : ℕ
  pub latency_us : ℕ
  pub order_id : Bytes
  pub msg : Bytes

-- What the files hold, and what the process has written to stderr.
pub record Logger : Type 0 where
  pub access_file : Bytes
  pub app_file : Bytes
  pub mirror : Bytes

-- What withAccessLog knows of a request when its handler has returned, with the time of its log line.
pub record Request : Type 0 where
  pub now : Bytes
  pub method : Bytes
  pub path : Bytes
  pub status : ℕ
  pub latency_us : ℕ
  pub order_id : Bytes

-- The line of `access`, with the message of withAccessLog.
abbrev pub access_line : Request → LogLine
access_line r = record {
  ts = r.now;
  level = codes "info";
  logger = codes "access";
  method = r.method;
  path = r.path;
  status = r.status;
  latency_us = r.latency_us;
  order_id = r.order_id;
  msg = codes "request";
}

-- The line of `app`; the order's id is empty if the fields hold none.
abbrev pub app_line : Bytes → Bytes → Bytes → Bytes → LogLine
app_line now level msg order_id = record {
  ts = now;
  level = level;
  logger = codes "app";
  method = [];
  path = [];
  status = 0;
  latency_us = 0;
  order_id = order_id;
  msg = msg;
}

-- An append of a marshalled line to a file.
abbrev pub appended : Bytes → Option Bytes → Bytes
appended file none = file
appended file (some b) = file ++ (b ++ b'\n' ∷ [])

module _ (marshal : LogLine → Option Bytes) where
  -- write
  unfoldable pub access : Request → Logger → Logger
  access r l = record l { access_file = appended l.access_file (marshal (access_line r)) }

  -- write2
  unfoldable pub app : Bytes → Bytes → Bytes → Bytes → Logger → Logger
  app now level msg order_id l =
      let b = marshal (app_line now level msg order_id) in
      record l { app_file = appended l.app_file b; mirror = appended l.mirror b }

  -- The end of withAccessLog.
  unfoldable pub finish_request : Request → Stats × Logger → Stats × Logger
  unfolding access
  finish_request r (s, l) = (record_http r.status r.latency_us s, access r l)
