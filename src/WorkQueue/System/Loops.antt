-- ===== src/WorkQueue/System/Loops.antt =====
-- The reaper's loop and the heartbeat's are runs of the system too.
use mathlib.Core.Path.{subst}
use container_patterns.Common.{
  ℕ, ◌≡◌, refl, sym, Bool, true, false, Option, none, some, List, [], ◌∷◌, Bytes, map,
}
use container_patterns.WorkQueue.Redis.{Redis}
use container_patterns.WorkQueue.Redis.Effects.{range_by_score}
use container_patterns.WorkQueue.Keys.{inflight_key, processing_key}
use container_patterns.WorkQueue.Coordinator.{
  Call, applied, requeue_expired, requeue_all, reap_expired_inflight, drain_dead_worker, drain_keys,
  reap_dead_workers, Tick, run_reaper,
}
use container_patterns.WorkQueue.Coordinator.Reaper.{page_of, drain_keys-cons}
use container_patterns.WorkQueue.Framework.{Pulse, beat, heartbeat_loop}
use container_patterns.WorkQueue.System.{System, beats, requeues, drains, Reach, here, later}
use container_patterns.WorkQueue.System.Runs.{Reach-trans}

module _ (R : Redis) where
  open R use {Db, view}

  -- The processes can do `f` to the store, wherever the system stands.
  abbrev Reachable : (Db → Db) → Type 0
  Reachable f = (s : System R) → Reach R s (record s { db = f s.db })

  requeue_all-Reachable :
      (calls : Bytes → Call) (max : ℕ) (ids : List Bytes) → Reachable (requeue_all R calls max ids)
  unfolding requeue_all
  requeue_all-Reachable calls max [] s = here
  requeue_all-Reachable calls max (id ∷ ids) s =
      Reach-trans R (later here (requeues (calls id) max id)) (
        requeue_all-Reachable calls max ids
          (record s { db = applied (calls id) s.db (requeue_expired R max id s.db).1 }))

  reap_expired_inflight-Reachable :
      (listed : Bool) (calls : Bytes → Call) (max now : ℕ)
      → Reachable (reap_expired_inflight R listed calls max now)
  unfolding reap_expired_inflight
  reap_expired_inflight-Reachable false calls max now s = here
  reap_expired_inflight-Reachable true calls max now s =
      requeue_all-Reachable calls max (range_by_score now ((view s.db).zsets inflight_key)) s

  drain_keys-Reachable :
      (calls : Bytes → Call) (max : ℕ) (ws : List Bytes)
      → Reachable (drain_keys R calls max (map processing_key ws))
  drain_keys-Reachable calls max [] s = unfold drain_keys in here
  drain_keys-Reachable calls max (w ∷ ws) s =
      rw (drain_keys-cons R calls max w (map processing_key ws) s.db) (
        Reach-trans R (later here (drains (calls (processing_key w)) max w)) (
          drain_keys-Reachable calls max ws (record s {
            db =
                applied (calls (processing_key w)) s.db
                  (drain_dead_worker R max (processing_key w) w s.db).1;
          })))

  reap_dead_workers-Reachable :
      (calls : Bytes → Call) (max : ℕ) (pages : List (Option (List Bytes)))
      → Reachable (reap_dead_workers R calls max (map page_of pages))
  unfolding reap_dead_workers
  reap_dead_workers-Reachable calls max [] s = here
  reap_dead_workers-Reachable calls max (none ∷ pages) s = here
  reap_dead_workers-Reachable calls max (some ws ∷ pages) s =
      Reach-trans R (drain_keys-Reachable calls max ws s) (
        reap_dead_workers-Reachable calls max pages
          (record s { db = drain_keys R calls max (map processing_key ws) s.db }))

  -- The system can come to the store `d`, with its processes in any phases.
  pub record Reached (s : System R) (d : Db) : Type 0 where
    pub last : System R
    pub run : Reach R s last
    pub at : last.db ≡ d

  Reached-after : {s t : System R} {d : Db} → Reach R s t → Reached t d → Reached s d
  Reached-after r h = record { last = h.last; run = Reach-trans R r h.run; at = h.at }

  Reached-here : (s : System R) → Reached s s.db
  Reached-here s = record { last = s; run = here; at = refl }

  -- Both passes of a tick.
  abbrev passes : ℕ → Tick R → Db → Db
  passes max t d =
      reap_dead_workers R t.drains max t.pages
        (reap_expired_inflight R t.listed t.calls max t.now d)

  -- What the ticks ask of their surroundings: before each of them, the processes come from where the
  -- system stands to the store that it finds, and SCAN shows keys of processing lists.
  unfoldable pub IsFair : ℕ → List (Tick R) → System R → Type 0
  IsFair max [] s = Unit
  IsFair max (t ∷ ticks) s =
      (m : Reached s (t.before s.db)) × ((ws : List (Option (List Bytes))) × (t.pages
          ≡ map page_of ws))
      × IsFair max ticks (record m.last { db = passes max t m.last.db })

  passes-Reachable :
      (max : ℕ) (t : Tick R) (ws : List (Option (List Bytes)))
      → t.pages ≡ map page_of ws
      → Reachable (passes max t)
  passes-Reachable max t ws scanned s =
      let d = reap_expired_inflight R t.listed t.calls max t.now s.db in
      Reach-trans R (reap_expired_inflight-Reachable t.listed t.calls max t.now s) (
        subst
          (λ pages.
            Reach R (record s { db = d })
              (record s { db = reap_dead_workers R t.drains max pages d }))
          (sym scanned) (reap_dead_workers-Reachable t.drains max ws (record s { db = d })))

  -- runReaper takes the steps of the system. If the keys that SCAN shows are those of processing lists,
  -- and if, from where the system stands each time, the processes can come to the stores that the ticks
  -- find, then, however the reaper's calls end, the store that it leaves is one that the system reaches.
  pub run_reaper-Reached :
      (max : ℕ) (ticks : List (Tick R)) (s : System R)
      → IsFair max ticks s
      → Reached s (run_reaper R max ticks s.db)
  unfolding run_reaper IsFair
  run_reaper-Reached max [] s h = Reached-here s
  run_reaper-Reached max (t ∷ ticks) s (m, (ws, scanned), h) =
      subst (λ d. Reached s (run_reaper R max ticks (passes max t d))) m.at
        (Reached-after m.run (
          Reached-after (passes-Reachable max t ws scanned m.last)
            (run_reaper-Reached max ticks (record m.last { db = passes max t m.last.db }) h)))

  -- The same for the ticks of the heartbeat's loop.
  unfoldable pub IsBeside : Bytes → ℕ → List (Pulse R) → System R → Type 0
  IsBeside w visibility [] s = Unit
  IsBeside w visibility (p ∷ pulses) s =
      (m : Reached s (p.before s.db)) × IsBeside w visibility pulses (record m.last {
        db = beat R w p.set_call p.zadd_call visibility p.now p.current m.last.db;
      })

  -- heartbeatLoop too takes the steps of the system, beside what the other processes do before its ticks.
  pub heartbeat_loop-Reached :
      (w : Bytes) (visibility : ℕ) (pulses : List (Pulse R)) (s : System R)
      → IsBeside w visibility pulses s
      → Reached s (heartbeat_loop R w visibility pulses s.db)
  unfolding heartbeat_loop IsBeside
  heartbeat_loop-Reached w visibility [] s h = Reached-here s
  heartbeat_loop-Reached w visibility (p ∷ pulses) s (m, h) =
      let beaten = beat R w p.set_call p.zadd_call visibility p.now p.current in
      subst (λ d. Reached s (heartbeat_loop R w visibility pulses (beaten d))) m.at
        (Reached-after (later m.run (beats w p.set_call p.zadd_call visibility p.now p.current))
          (heartbeat_loop-Reached w visibility pulses (record m.last { db = beaten m.last.db }) h))
