-- ===== src/WorkQueue/System/Views.antt =====
-- What the commands of Redis do to what is shown of a task that is safe, and to the attempt counters.
use container_patterns.Common.{
  ℕ, ◌≡◌, refl, sym, ap, ◌∙◌, inl, inr, Bool, true, false, not, ◌&&◌, Bytes, bytes_eq, bytes_eq_iff,
  Bool-cases, if◌then◌else◌,
}
use container_patterns.WorkQueue.Redis.Effects
use container_patterns.WorkQueue.Redis.Effects.{
  View, Value, number, elem, score, update, remove_member, place, keep_greater,
}
use container_patterns.WorkQueue.Redis.Effects.Laws.{bytes_eq_refl, score-remove_member, score-zadd}
use container_patterns.WorkQueue.Keys.{
  inflight_key, done_key, settle_pending_key, task_key, processing_key, keys_differ,
}
use container_patterns.WorkQueue.Tracking.{Counted, attempt_not_status}
use container_patterns.WorkQueue.Coordinator.{attempt_field, status_field, incremented}
use container_patterns.WorkQueue.Coordinator.Enqueue.{enqueued, enqueued_fields, task_not_order}
use container_patterns.WorkQueue.Framework.{is_empty}
use container_patterns.WorkQueue.Framework.Ack.{acknowledged}
use container_patterns.WorkQueue.System.{Phase}
use container_patterns.WorkQueue.System.Anchored.{
  holds, IsAnchored, ready, dead, flight, done, listed, Grows, Grows-IsAnchored, lrem-IsAnchored,
}

pub Grows-same :
    (j : Bytes) {v : View} (v' : View)
    → v'.lists ≡ v.lists
    → v'.zsets ≡ v.zsets
    → v'.sets ≡ v.sets
    → Grows j v v'
Grows-same j {v} v' l z s = record {
  lists = λ k h. ap (λ f. elem j (f k)) l ∙ h;
  flight = λ t h. (t, ap (λ f. score j (f inflight_key)) z ∙ h);
  done = λ h. ap (λ f. f done_key j) s ∙ h;
}

sadd-Grows : (k m j : Bytes) (v : View) → Grows j v (Effects.sadd k m v)
sadd-Grows k m j v = record {
  lists = λ l h. h;
  flight = λ t h. (t, h);
  done = λ h. elim (Bool-cases (bytes_eq done_key k)) [
    | inr other ↦ rw other h
    | inl same ↦ elim (Bool-cases (bytes_eq j m)) [
      | inl hit ↦ rw (same, hit) refl
      | inr miss ↦ rw (same, miss) (ap (λ c. v.sets c j) (sym ((bytes_eq_iff _ _).0 same)) ∙ h)
    ]
  ];
}

pub zadd-Grows : (s : ℕ) (id j : Bytes) (v : View) → Grows j v (Effects.zadd inflight_key s id v)
zadd-Grows s id j v = record {
  lists = λ l h. h;
  flight = λ t h. elim (Bool-cases (bytes_eq j id)) [
    | inl same ↦
        (s, rw (bytes_eq_refl inflight_key, score-zadd j id s (v.zsets inflight_key), same) refl)
    | inr other ↦
        (t, rw (bytes_eq_refl inflight_key, score-zadd j id s (v.zsets inflight_key), other) h)
  ];
  done = λ h. h;
}

zrem_done-IsAnchored :
    {phase : Bytes → Phase} {j : Bytes} (id : Bytes) (v : View)
    → v.sets done_key id ≡ true
    → IsAnchored phase v j
    → IsAnchored phase (Effects.zrem inflight_key id v) j
zrem_done-IsAnchored id v over (ready h) = ready h
zrem_done-IsAnchored id v over (dead h) = dead h
zrem_done-IsAnchored id v over (done h) = done h
zrem_done-IsAnchored id v over (listed u h k) = listed u h k
zrem_done-IsAnchored {phase} {j} id v over (flight s h) = elim (Bool-cases (bytes_eq j id)) [
  | inl same ↦ done (ap (v.sets done_key) ((bytes_eq_iff j id).0 same) ∙ over)
  | inr other ↦
      flight s
        (rw (bytes_eq_refl inflight_key, score-remove_member j id (v.zsets inflight_key), other) h)
]

-- What ack's two SADDs show before its LREM.
abbrev pub marked : Bool → Bytes → Bytes → View → View
marked b order_id id v =
    if b
    then Effects.sadd settle_pending_key order_id (Effects.sadd done_key id v)
    else Effects.sadd done_key id v

marked_done :
    (b : Bool) (order_id id : Bytes) (v : View) → (marked b order_id id v).sets done_key id ≡ true
marked_done true order_id id v = rw (keys_differ.2, bytes_eq_refl done_key, bytes_eq_refl id) refl
marked_done false order_id id v = rw (bytes_eq_refl done_key, bytes_eq_refl id) refl

marked-IsAnchored :
    {phase : Bytes → Phase} {j : Bytes} (b : Bool) (order_id id : Bytes) (v : View)
    → IsAnchored phase v j
    → IsAnchored phase (marked b order_id id v) j
marked-IsAnchored {phase} {j} true order_id id v a =
    Grows-IsAnchored (sadd-Grows settle_pending_key order_id j (Effects.sadd done_key id v))
      (Grows-IsAnchored (sadd-Grows done_key id j v) a)
marked-IsAnchored {phase} {j} false order_id id v a =
    Grows-IsAnchored (sadd-Grows done_key id j v) a

pub acknowledged-IsAnchored :
    {phase : Bytes → Phase} {j : Bytes} (w id order_id : Bytes) (success : Bool) (v : View)
    → holds (phase w) id ≡ true
    → IsAnchored phase v j
    → IsAnchored phase (acknowledged w id order_id success v) j
acknowledged-IsAnchored {phase} {j} w id order_id success v hand a =
    let b = success && not (is_empty order_id) in
    let u = marked b order_id id v in
    let removed = Effects.lrem (processing_key w) id u in
    Grows-IsAnchored (Grows-same j _ refl refl refl) (
      zrem_done-IsAnchored id removed (marked_done b order_id id v)
        (lrem-IsAnchored w id u hand (marked-IsAnchored b order_id id v a)))

pub Counted-same :
    (v v' : View)
    → ((id : Bytes) → v'.hashes (task_key id) attempt_field ≡ v.hashes (task_key id) attempt_field)
    → Counted v
    → Counted v'
Counted-same v v' same c id = let (k, e) = c id in (k, ap incremented (same id) ∙ e)

pub hset_status-Counted :
    (id : Bytes) (x : Value) (v : View)
    → Counted v
    → Counted (Effects.hset (task_key id) status_field x v)
hset_status-Counted id x v c j = elim (Bool-cases (bytes_eq (task_key j) (task_key id))) [
  | inr other ↦ let (k, e) = c j in (k, rw other e)
  | inl same ↦ let (k, e) = c id in (k, rw (same, attempt_not_status) e)
]

pub marked-Counted :
    (b : Bool) (order_id id : Bytes) (v : View) → Counted v → Counted (marked b order_id id v)
marked-Counted true order_id id v c = c
marked-Counted false order_id id v c = c

pub enqueued-Counted :
    (a b at envelope : Bytes) (v : View) → Counted v → Counted (enqueued a b at envelope v)
enqueued-Counted a b at envelope v c j = elim (Bool-cases (bytes_eq (task_key j) (task_key a))) [
  | inl same ↦
      let first = (enqueued_fields a b at envelope v).3 in
      let key : task_key j ≡ task_key a = (bytes_eq_iff _ _).0 same in
      let hash = (enqueued a b at envelope v).hashes in
      (2, ap (λ k. incremented (hash k attempt_field)) key ∙ ap incremented first)
  | inr other ↦ let (k, e) = c j in (k, simp (other, task_not_order j b) e)
]
