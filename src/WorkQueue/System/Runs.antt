-- ===== src/WorkQueue/System/Runs.antt =====
-- Runs of the system that end with a worker in a given phase; claim is one of them.
use mathlib.Core.Path.{subst, fun_ext}
use container_patterns.Common.{
  ◌≡◌, refl, sym, ap, ◌∙◌, ◌⊎◌, inl, inr, true, false, List, [], ◌∷◌, Bytes, bytes_eq, bytes_eq_iff,
  Bool-cases,
}
use container_patterns.WorkQueue.Redis.{Redis}
use container_patterns.WorkQueue.Redis.Effects.{update}
use container_patterns.WorkQueue.Redis.Effects.Laws.{bytes_eq_refl}
use container_patterns.WorkQueue.Keys.{ready_key, done_key, processing_key}
use container_patterns.WorkQueue.Coordinator.{succeeded}
use container_patterns.WorkQueue.Framework
use container_patterns.WorkQueue.Framework.{
  ClaimReply, nothing, claim_failed, ClaimCalls, TaskCalls, lrem_processing, gate, claim,
  extract_order_id, after_stage, with_envelope, envelope_read, handle_task, Round, after_claim,
  run_loop,
}
use container_patterns.WorkQueue.System.{
  Phase, idle, moved, dropping, claimed, System, Step, blmove_replies, blmove_fails, found_done,
  found_new, sismember_fails, drops, Reach, here, later,
}

-- Where claim leaves the worker.
abbrev pub phase_of : ClaimReply → Phase
phase_of (ClaimReply.claimed id) = claimed id
phase_of nothing = idle
phase_of claim_failed = idle

module _ (R : Redis) where
  open R use {Db, view}

  pub Reach-trans : {s t u : System R} → Reach R s t → Reach R t u → Reach R s u
  Reach-trans p here = p
  Reach-trans p (later q st) = later (Reach-trans p q) st

  -- From `s` the system can come to the store `d` with the worker `w` in the phase `p`.
  pub record Runs (w : Bytes) (s : System R) (p : Phase) (d : Db) : Type 0 where
    pub last : System R
    pub run : Reach R s last
    pub at : last.db ≡ d
    pub stands : last.phase w ≡ p

  pub updated : (phase : Bytes → Phase) (w : Bytes) (p : Phase) → update phase w p w ≡ p
  updated phase w p = rw (bytes_eq_refl w) refl

  -- The system with the store `d`, and the worker `w` in the phase `p`.
  abbrev pub stand : Bytes → Phase → Db → System R → System R
  stand w p d s = record { db = d; phase = update s.phase w p }

  unmoved : {w : Bytes} {p : Phase} (s : System R) → s.phase w ≡ p → update s.phase w p ≡ s.phase
  unmoved {w} {p} s e = fun_ext (λ v. at_key v (Bool-cases (bytes_eq v w)))
    where
      at_key :
          (v : Bytes)
          → (bytes_eq v w ≡ true) ⊎ (bytes_eq v w ≡ false)
          → update s.phase w p v ≡ s.phase v
      at_key v (inl h) = rw h (sym (ap s.phase ((bytes_eq_iff v w).0 h) ∙ e))
      at_key v (inr h) = rw h refl

  moved_twice :
      (phase : Bytes → Phase) (w : Bytes) (p q : Phase)
      → update (update phase w p) w q ≡ update phase w q
  moved_twice phase w p q =
      fun_ext (λ v. elim (Bool-cases (bytes_eq v w)) [ inl h ↦ rw h refl | inr h ↦ rw h refl ])

  -- This worker takes the system to the store `d` and itself to the phase `p`, alone.
  abbrev pub Moves : Bytes → System R → Phase → Db → Type 0
  Moves w s p d = Reach R s (stand w p d s)

  pub Moves-later :
      (w : Bytes) (p q : Phase) {d d' : Db} (s : System R)
      → Moves w (stand w q d' s) p d
      → Step R s (stand w q d' s)
      → Moves w s p d
  Moves-later w p q {d} {d'} s r st = Reach-trans (later here st) (
      subst (λ phase. Reach R (stand w q d' s) (record { db = d; phase = phase }))
        (moved_twice s.phase w q p) r)

  -- A move that leaves the worker in its phase.
  pub Moves-of :
      {w : Bytes} {p : Phase} {d : Db} (s : System R)
      → s.phase w ≡ p
      → Reach R s (record s { db = d })
      → Moves w s p d
  Moves-of {w} {p} {d} s e r =
      subst (λ phase. Reach R s (record { db = d; phase = phase })) (sym (unmoved s e)) r

  -- One step more.
  pub Runs-after :
      {w : Bytes} {s t : System R} {p : Phase} {d : Db} → Reach R s t → Runs w t p d → Runs w s p d
  Runs-after h r = record { last = r.last; run = Reach-trans h r.run; at = r.at; stands = r.stands }

  pub Runs-here : {w : Bytes} (s : System R) {p : Phase} → s.phase w ≡ p → Runs w s p s.db
  Runs-here s e = record { last = s; run = here; at = refl; stands = e }

  -- SISMEMBER and what follows it.
  gate-Moves :
      (w : Bytes) (calls : ClaimCalls) (id : Bytes) (t : System R)
      → t.phase w ≡ moved id
      → let (reply, d) = gate R w calls id t.db in Moves w t (phase_of reply) d
  gate-Moves w calls id t e = elim (Bool-cases calls.sismember_replies) [
    | inr lost ↦ rw lost (later here (sismember_fails w id e))
    | inl came ↦ elim (Bool-cases ((view t.db).sets done_key id)) [
      | inr new ↦ rw (came, new) (later here (found_new w id e new))
      | inl old ↦
          rw (came, old)
            (Moves-later w _ _ t
              (later here (drops w id calls.lrem (updated t.phase w (dropping id))))
              (found_done w id e old))
    ]
  ]

  pub claim-Moves :
      (w : Bytes) (calls : ClaimCalls) (s : System R)
      → s.phase w ≡ idle
      → let (reply, d) = claim R w calls s.db in Moves w s (phase_of reply) d
  unfolding claim
  claim-Moves w calls s e = elim (Bool-cases (succeeded calls.blmove)) [
    | inr lost ↦ rw lost (Moves-of s e (later here (blmove_fails w calls.blmove e)))
    | inl came ↦ rw came (handed ((view s.db).lists ready_key) refl)
  ]
    where
      handed :
          (ids : List Bytes)
          → (view s.db).lists ready_key ≡ ids
          → let (reply, d) = Framework.moved R w calls ids s.db in Moves w s (phase_of reply) d
      handed [] f = Moves-of s e here
      handed (id ∷ ids) f =
          let after : System R =
            stand w (moved id) (R.blmove ready_key (processing_key w) s.db) s in
          Moves-later w _ _ s (gate-Moves w calls id after (updated s.phase w (moved id)))
            (blmove_replies w id ids e f)
