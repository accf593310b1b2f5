-- ===== src/WorkQueue/Redis/Plain.antt =====
-- A server that has the documented effects and nothing else, for tests.
use container_patterns.Common.{refl, false, none, []}
use container_patterns.WorkQueue.Redis.{Redis}
use container_patterns.WorkQueue.Redis.Effects
use container_patterns.WorkQueue.Redis.Effects.{View}

abbrev pub plain : Redis
plain = record {
  Db = View;
  view = λ v. v;
  rpush = Effects.rpush;
  lrem = Effects.lrem;
  blmove = Effects.blmove;
  del = Effects.del;
  zadd = Effects.zadd;
  zadd_gt = Effects.zadd_gt;
  zrem = Effects.zrem;
  sadd = Effects.sadd;
  hset = Effects.hset;
  hincrby = Effects.hincrby;
  set_key = Effects.set_key;
  view-rpush = λ k x d. refl;
  view-lrem = λ k x d. refl;
  view-blmove = λ k j d. refl;
  view-del = λ k d. refl;
  view-zadd = λ k s m d. refl;
  view-zadd_gt = λ k s m d. refl;
  view-zrem = λ k m d. refl;
  view-sadd = λ k m d. refl;
  view-hset = λ k f x d. refl;
  view-hincrby = λ k f d. refl;
  view-set_key = λ k d. refl;
}

abbrev pub empty : View
empty = record {
  lists = λ k. [];
  zsets = λ k. [];
  sets = λ k m. false;
  hashes = λ k f. none;
  strings = λ k. false;
}
