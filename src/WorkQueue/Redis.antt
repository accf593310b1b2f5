-- ===== src/WorkQueue/Redis.antt =====
-- What the queue relies on of Redis: the documented effect of each command that it sends, on what
-- the reading commands show of the store. The server itself is a parameter, the record `Redis`.
pub mod Effects
pub mod Plain
use container_patterns.Common.{ℕ, ◌≡◌, Bool, Option, List, Bytes}
use container_patterns.WorkQueue.Redis.Effects
use container_patterns.WorkQueue.Redis.Effects.{View, Value}

-- A server: its state, what it shows, and for each command the new state with the command's
-- documented effect as a law. BLMOVE is taken at a moment when it does not block any more.
pub record Redis : Type 1 where
  pub Db : Type 0
  pub view : Db → View
  pub rpush : Bytes → Bytes → Db → Db
  pub lrem : Bytes → Bytes → Db → Db
  pub blmove : Bytes → Bytes → Db → Db
  pub del : Bytes → Db → Db
  pub zadd : Bytes → ℕ → Bytes → Db → Db
  pub zadd_gt : Bytes → ℕ → Bytes → Db → Db
  pub zrem : Bytes → Bytes → Db → Db
  pub sadd : Bytes → Bytes → Db → Db
  pub hset : Bytes → Bytes → Value → Db → Db
  pub hincrby : Bytes → Bytes → Db → Db
  pub set_key : Bytes → Db → Db
  pub view-rpush : (k x : Bytes) (d : Db) → view (rpush k x d) ≡ Effects.rpush k x (view d)
  pub view-lrem : (k x : Bytes) (d : Db) → view (lrem k x d) ≡ Effects.lrem k x (view d)
  pub view-blmove : (k j : Bytes) (d : Db) → view (blmove k j d) ≡ Effects.blmove k j (view d)
  pub view-del : (k : Bytes) (d : Db) → view (del k d) ≡ Effects.del k (view d)
  pub view-zadd :
      (k : Bytes) (s : ℕ) (m : Bytes) (d : Db) → view (zadd k s m d) ≡ Effects.zadd k s m (view d)
  pub view-zadd_gt :
      (k : Bytes) (s : ℕ) (m : Bytes) (d : Db)
      → view (zadd_gt k s m d) ≡ Effects.zadd_gt k s m (view d)
  pub view-zrem : (k m : Bytes) (d : Db) → view (zrem k m d) ≡ Effects.zrem k m (view d)
  pub view-sadd : (k m : Bytes) (d : Db) → view (sadd k m d) ≡ Effects.sadd k m (view d)
  pub view-hset :
      (k f : Bytes) (x : Value) (d : Db) → view (hset k f x d) ≡ Effects.hset k f x (view d)
  pub view-hincrby : (k f : Bytes) (d : Db) → view (hincrby k f d) ≡ Effects.hincrby k f (view d)
  pub view-set_key : (k : Bytes) (d : Db) → view (set_key k d) ≡ Effects.set_key k (view d)
