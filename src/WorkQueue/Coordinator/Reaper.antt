-- ===== src/WorkQueue/Coordinator/Reaper.antt =====
-- The two passes of the reaper: neither loses a task, whichever of its calls fail.
use mathlib.Core.Path.{subst}
use container_patterns.Common.{
  ℕ, ◌≡◌, refl, sym, ap, inl, inr, Bool, true, false, Option, none, some, List, [], ◌∷◌, arith,
  Bytes, length, All, map,
}
use container_patterns.WorkQueue.Redis.{Redis}
use container_patterns.WorkQueue.Redis.Effects
use container_patterns.WorkQueue.Redis.Effects.{View, text, score, elem, update, range_by_score}
use container_patterns.WorkQueue.Redis.Effects.Laws.{bytes_eq_refl}
use container_patterns.WorkQueue.Keys.{processing_key, worker_key, processing_key_differs}
use container_patterns.WorkQueue.Tracking.{IsTracked, Counted}
use container_patterns.WorkQueue.Coordinator.{
  Call, replied, request_lost, reply_lost, applied, requeue_expired, requeue_all,
  reap_expired_inflight, drain_ids, drained, drain_dead_worker, drain_keys, reap_dead_workers,
}
use container_patterns.WorkQueue.Coordinator.Retry.{
  Keeps, Keeps-refl, Keeps-trans, Keeps-of_retried, requeue_expired-cases,
}
use container_patterns.WorkQueue.Coordinator.Drain.{
  IsPushed, drain_ids-Drains, drain_dead_worker-gone, drain_dead_worker-Keeps, worker_of_key,
}

-- The keys that a page of SCAN processing:* gives, for the workers that it names.
abbrev pub page_of : Option (List Bytes) → Option (List Bytes)
page_of none = none
page_of (some ws) = some (map processing_key ws)

module _ (R : Redis) where
  open R use {Db, view}

  pub requeue_expired-Keeps :
      (max : ℕ) (id : Bytes) (d : Db) → Counted (view d) → Keeps R d (requeue_expired R max id d).1
  requeue_expired-Keeps max id d c = elim (requeue_expired-cases R max id d c) [
    | inl (gone, e) ↦ subst (λ (r : Option ℕ × Db). Keeps R d r.1) (sym e) (Keeps-refl R d)
    | inr (k, e) ↦ Keeps-of_retried R max id k e
  ]

  applied-Keeps : (call : Call) {d d' : Db} → Keeps R d d' → Keeps R d (applied call d d')
  applied-Keeps replied k = k
  applied-Keeps request_lost {d} k = Keeps-refl R d
  applied-Keeps reply_lost k = k

  requeue_all-Keeps :
      (calls : Bytes → Call) (max : ℕ) (ids : List Bytes) (d : Db)
      → Counted (view d)
      → Keeps R d (requeue_all R calls max ids d)
  unfolding requeue_all
  requeue_all-Keeps calls max [] d c = Keeps-refl R d
  requeue_all-Keeps calls max (id ∷ ids) d c =
      let one = applied-Keeps (calls id) (requeue_expired-Keeps max id d c) in
      Keeps-trans R one (requeue_all-Keeps calls max ids _ (one.counted c))

  reap_expired_inflight-Keeps :
      (listed : Bool) (calls : Bytes → Call) (max now : ℕ) (d : Db)
      → Counted (view d)
      → Keeps R d (reap_expired_inflight R listed calls max now d)
  unfolding reap_expired_inflight
  reap_expired_inflight-Keeps false calls max now d c = Keeps-refl R d
  reap_expired_inflight-Keeps true calls max now d c = requeue_all-Keeps calls max _ d c

  All-of_elem :
      (P : Bytes → Type 0) (ids : List Bytes) → ((j : Bytes) → elem j ids ≡ true → P j) → All P ids
  unfolding elem
  All-of_elem P [] h = tt
  All-of_elem P (id ∷ ids) h =
      (h id (ground (arith, bytes_eq_refl id)), All-of_elem P ids (λ j e. h j (ground arith)))

  -- drainDeadWorkerScript on a worker whose liveness key is gone, in a store whose attempt counters are all
  -- numbers, so that no HINCRBY breaks the script off: it returns the length of the processing list, leaves
  -- that list empty, and each task of it is then ready or dead.
  pub drain_dead_worker_lem :
      (max : ℕ) (w : Bytes) (d : Db)
      → Counted (view d)
      → (view d).strings (worker_key w) ≡ false
      → let (reply, d') = drain_dead_worker R max (processing_key w) w d in
        let ids = (view d).lists (processing_key w) in
        (reply ≡ drained (length ids))
        × ((view d').lists (processing_key w) ≡ [])
        × All (IsPushed (view d')) ids
  drain_dead_worker_lem max w d c gone =
      let ids = (view d).lists (processing_key w) in
      let drains = (drain_ids-Drains R max ids d c).1 in
      rw (drain_dead_worker-gone R max w d c gone) (
        refl,
        rw (R.view-del, bytes_eq_refl (processing_key w)) refl,
        rw R.view-del (
            All-of_elem (IsPushed (Effects.del (processing_key w) (view (drain_ids R max ids d).1)))
              ids (λ j h. kept (view (drain_ids R max ids d).1) j (drains.pushed j h))),
      )
    where
      kept : (v : View) (j : Bytes) → IsPushed v j → IsPushed (Effects.del (processing_key w) v) j
      kept v j (inl p) = inl (rw (processing_key_differs w).0 p)
      kept v j (inr p) = inr (rw (processing_key_differs w).2 p)

  pub drain_keys-cons :
      (calls : Bytes → Call) (max : ℕ) (w : Bytes) (keys : List Bytes) (d : Db)
      → drain_keys R calls max (processing_key w ∷ keys) d
        ≡ drain_keys R calls max keys (
            applied (calls (processing_key w)) d (drain_dead_worker R max (processing_key w) w d).1)
  unfolding drain_keys
  drain_keys-cons calls max w keys d =
      let key = processing_key w in
      ap
        (λ u.
          drain_keys R calls max keys (applied (calls key) d (drain_dead_worker R max key u d).1))
        (worker_of_key w)

  drain_keys-Keeps :
      (calls : Bytes → Call) (max : ℕ) (ws : List Bytes) (d : Db)
      → Counted (view d)
      → Keeps R d (drain_keys R calls max (map processing_key ws) d)
  drain_keys-Keeps calls max [] d c = unfold drain_keys in Keeps-refl R d
  drain_keys-Keeps calls max (w ∷ ws) d c =
      let one = applied-Keeps (calls (processing_key w)) (drain_dead_worker-Keeps R max w d c) in
      rw drain_keys-cons (Keeps-trans R one (drain_keys-Keeps calls max ws _ (one.counted c)))

  reap_dead_workers-Keeps :
      (calls : Bytes → Call) (max : ℕ) (pages : List (Option (List Bytes))) (d : Db)
      → Counted (view d)
      → Keeps R d (reap_dead_workers R calls max (map page_of pages) d)
  unfolding reap_dead_workers
  reap_dead_workers-Keeps calls max [] d c = Keeps-refl R d
  reap_dead_workers-Keeps calls max (none ∷ pages) d c = Keeps-refl R d
  reap_dead_workers-Keeps calls max (some ws ∷ pages) d c =
      let one = drain_keys-Keeps calls max ws d c in
      Keeps-trans R one (reap_dead_workers-Keeps calls max pages _ (one.counted c))

  -- One tick of the reaper, both passes, loses no task: a task that could be found in the store can
  -- be found after it, whether or not ZRANGEBYSCORE and the pages of SCAN came through, and however
  -- each script call ended; and the attempt counters are numbers still.
  pub reaper-IsTracked :
      (listed : Bool) (calls drains : Bytes → Call) (max now : ℕ)
      (pages : List (Option (List Bytes))) (d : Db) (j : Bytes)
      → Counted (view d)
      → IsTracked (view d) j
      → let d' =
          reap_dead_workers R drains max
            (map page_of pages)
            (reap_expired_inflight R listed calls max now d) in
        IsTracked (view d') j × Counted (view d')
  reaper-IsTracked listed calls drains max now pages d j c t =
      let a = reap_expired_inflight-Keeps listed calls max now d c in
      let b = reap_dead_workers-Keeps drains max pages _ (a.counted c) in
      (b.tracked j (a.tracked j t), b.counted (a.counted c))
