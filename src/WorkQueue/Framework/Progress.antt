-- ===== src/WorkQueue/Framework/Progress.antt =====
-- runLoop of a worker whose calls all reply and whose stage decides: one round takes the head of the
-- ready list to its end, and n rounds take n tasks, in their order.
pub mod Rounds
pub mod Drained
use mathlib.Core.Path.{subst}
use container_patterns.Common.{
  ℕ, ◌+◌, ◌≡◌, ◌≢◌, refl, sym, ap, ◌∙◌, ◌⊎◌, inl, inr, Bool, true, false, not, ◌&&◌, Option, none,
  some, List, [], ◌∷◌, ◌++◌, arith, Bytes, bytes_eq, bytes_eq_iff, Bool-cases, All, if◌then◌else◌,
  codes,
}
use container_patterns.WorkQueue.Redis.{Redis}
use container_patterns.WorkQueue.Redis.Effects
use container_patterns.WorkQueue.Redis.Effects.{View, Value, text, number, update, remove_first}
use container_patterns.WorkQueue.Redis.Effects.Laws.{bytes_eq_refl}
use container_patterns.WorkQueue.Keys.{
  ready_key, inflight_key, done_key, settle_pending_key, task_key, processing_key, keys_differ,
  processing_key_differs,
}
use container_patterns.WorkQueue.Coordinator.{replied, payload_field, status_field}
use container_patterns.WorkQueue.Framework.{
  claimed, nothing, ClaimCalls, TaskCalls, is_empty, ack_tx, claim, moved, gate, extract_order_id,
  handle_task, Round, after_claim, run_loop, lrem_processing,
}
use container_patterns.WorkQueue.Framework.Ack.{acknowledged, ack_tx_lem}

-- What one round does to the store, when the head of the ready list is `id` with the envelope
-- `envelope`: a finished task is dropped, another one is worked on and acknowledged.
abbrev pub taken : Bytes → Bytes → List Bytes → View → View
taken w id ids v =
    Effects.rpush (processing_key w) id (record v { lists = update v.lists ready_key ids })

abbrev pub dropped : Bytes → Bytes → List Bytes → View → View
dropped w id ids v = Effects.lrem (processing_key w) id (taken w id ids v)

abbrev pub worked : Bytes → Bytes → Bytes → Bool → ℕ → List Bytes → View → View
worked w id order success deadline ids v =
    acknowledged w id order success (Effects.zadd inflight_key deadline id (taken w id ids v))

-- The task has an id and an envelope.
abbrev pub HasPayload : View → Bytes → Type 0
HasPayload v id = (id ≢ []) × ((e : Bytes) × (v.hashes (task_key id) payload_field ≡ some (text e)))

-- What a round leaves as it was, and what it finishes.
pub record Served (id : Bytes) (ids : List Bytes) (v v' : View) : Type 0 where
  pub ready : v'.lists ready_key ≡ ids
  pub finished : v'.sets done_key id ≡ true
  pub done : (j : Bytes) → v.sets done_key j ≡ true → v'.sets done_key j ≡ true
  pub others : (j : Bytes) → bytes_eq j id ≡ false → v'.sets done_key j ≡ v.sets done_key j
  pub pending :
      (o : Bytes) → v.sets settle_pending_key o ≡ true → v'.sets settle_pending_key o ≡ true
  pub payload :
      (j : Bytes) → v'.hashes (task_key j) payload_field ≡ v.hashes (task_key j) payload_field

payload_not_status : bytes_eq payload_field status_field ≡ false
unfolding bytes_eq
payload_not_status = refl

pub dropped-Served :
    (w id : Bytes) (ids : List Bytes) (v : View)
    → v.sets done_key id ≡ true
    → Served id ids v (dropped w id ids v)
dropped-Served w id ids v h = record {
  ready = rw ((processing_key_differs w).0, bytes_eq_refl ready_key) refl;
  finished = h;
  done = λ j d. d;
  others = λ j d. refl;
  pending = λ o d. d;
  payload = λ j. refl;
}

-- What a set holds is in it after any addition.
sadd_keeps :
    (k m key j : Bytes) (v : View) → v.sets key j ≡ true → (Effects.sadd k m v).sets key j ≡ true
sadd_keeps k m key j v h = elim (Bool-cases (bytes_eq key k)) [
  | inr other ↦ rw other h
  | inl same ↦ elim (Bool-cases (bytes_eq j m)) [
    | inl hit ↦ rw (same, hit) refl
    | inr miss ↦ rw (same, miss) (ap (λ c. v.sets c j) (sym ((bytes_eq_iff _ _).0 same)) ∙ h)
  ]
]

-- The sets after the transaction of ack, from those before.
abbrev joined : Bool → Bytes → Bytes → View → View
joined b order id v =
    if b
    then Effects.sadd settle_pending_key order (Effects.sadd done_key id v)
    else Effects.sadd done_key id v

joined_keeps :
    (b : Bool) (order id key j : Bytes) (v : View)
    → v.sets key j ≡ true
    → (joined b order id v).sets key j ≡ true
joined_keeps true order id key j v h =
    sadd_keeps settle_pending_key order key j (Effects.sadd done_key id v)
      (sadd_keeps done_key id key j v h)
joined_keeps false order id key j v h = sadd_keeps done_key id key j v h

joined_done :
    (b : Bool) (order id j : Bytes) (v : View)
    → (joined b order id v).sets done_key j ≡ (if bytes_eq j id then true else v.sets done_key j)
joined_done true order id j v = rw (keys_differ.2, bytes_eq_refl done_key) refl
joined_done false order id j v = rw (bytes_eq_refl done_key) refl

-- The parts of the store that ack's transaction changes with other commands.
joined_rest :
    (b : Bool) (order id : Bytes) (v : View)
    → ((joined b order id v).lists ≡ v.lists) × ((joined b order id v).hashes ≡ v.hashes)
joined_rest true order id v = (refl, refl)
joined_rest false order id v = (refl, refl)

-- A field of another name stays.
hset_other :
    (k f j g : Bytes) (x : Value) (v : View)
    → bytes_eq g f ≡ false
    → (Effects.hset k f x v).hashes j g ≡ v.hashes j g
hset_other k f j g x v ne = elim (Bool-cases (bytes_eq j k)) [
  | inr other ↦ rw other refl
  | inl same ↦ rw (same, ne) (ap (λ c. v.hashes c g) (sym ((bytes_eq_iff j k).0 same)))
]

pub worked-Served :
    (w id order : Bytes) (success : Bool) (deadline : ℕ) (ids : List Bytes) (v : View)
    → Served id ids v (worked w id order success deadline ids v)
worked-Served w id order success deadline ids v =
    let b = success && not (is_empty order) in
    let u = Effects.zadd inflight_key deadline id (taken w id ids v) in
    record {
      ready =
          rw ((processing_key_differs w).0, (joined_rest b order id u).0)
            (rw ((processing_key_differs w).0, bytes_eq_refl ready_key) refl);
      finished = joined_done b order id id u ∙ rw (bytes_eq_refl id) refl;
      done = λ j d. joined_keeps b order id done_key j u d;
      others = λ j ne. joined_done b order id j u ∙ rw ne refl;
      pending = λ o d. joined_keeps b order id settle_pending_key o u d;
      payload = λ j.
          hset_other (task_key id) status_field (task_key j) payload_field _
            (Effects.zrem inflight_key id
              (Effects.lrem (processing_key w) id (joined b order id u)))
            payload_not_status
          ∙ ap (λ h. h (task_key j) payload_field) (joined_rest b order id u).1;
    }

-- Whether the task is counted to its order, and its status.
pub worked_settles :
    (w id order : Bytes) (deadline : ℕ) (ids : List Bytes) (v : View)
    → order ≢ []
    → (worked w id order true deadline ids v).sets settle_pending_key order ≡ true
worked_settles w id [] deadline ids v ne = absurd (ne refl)
worked_settles w id (c ∷ cs) deadline ids v ne =
    rw (bytes_eq_refl settle_pending_key, bytes_eq_refl (c ∷ cs)) refl
