-- ===== src/WorkQueue/Framework/Claim.antt =====
-- claim takes the head of the ready list, lets no finished task through, and loses none.
use container_patterns.Common.{
  ◌≡◌, refl, sym, ap, ◌∙◌, ◌⊎◌, inl, inr, true, false, List, [], ◌∷◌, ◌++◌, arith, Bytes, bytes_eq,
  bytes_eq_iff, Bool-cases,
}
use container_patterns.WorkQueue.Redis.{Redis}
use container_patterns.WorkQueue.Redis.Effects
use container_patterns.WorkQueue.Redis.Effects.{View, elem, update}
use container_patterns.WorkQueue.Redis.Effects.Laws.{bytes_eq_refl, elem-snoc_self}
use container_patterns.WorkQueue.Keys.{
  ready_key, dead_key, done_key, processing_key, processing_key_differs, keys_differ,
}
use container_patterns.WorkQueue.Tracking.{
  IsTracked, in_ready, in_dead, in_processing, in_flight, is_done, elem-rpush, lrem-IsTracked,
  IsHeld,
}
use container_patterns.WorkQueue.Coordinator.{
  Call, replied, request_lost, reply_lost, applied, succeeded,
}
use container_patterns.WorkQueue.Framework.{
  claimed, ClaimCalls, lrem_processing, gate, moved, claim,
}

elem_cons-cases :
    (x y : Bytes) (ys : List Bytes) → elem x (y ∷ ys) ≡ true → (x ≡ y) ⊎ (elem x ys ≡ true)
unfolding elem
elem_cons-cases x y ys h = ground (arith, bytes_eq_iff x y)

-- The move of the head of the ready list, at the view.
abbrev popped : List Bytes → View → View
popped xs v = record v { lists = update v.lists ready_key xs }

abbrev head_moved : Bytes → Bytes → List Bytes → View → View
head_moved w x xs v = Effects.rpush (processing_key w) x (popped xs v)

head_moved-IsTracked :
    (w x : Bytes) (xs : List Bytes) (v : View) (j : Bytes)
    → v.lists ready_key ≡ x ∷ xs
    → IsTracked v j
    → IsTracked (head_moved w x xs v) j
head_moved-IsTracked w x xs v j e (is_done h) = is_done h
head_moved-IsTracked w x xs v j e (in_flight s h) = in_flight s h
head_moved-IsTracked w x xs v j e (in_dead h) =
    in_dead (elem-rpush j (processing_key w) x dead_key (popped xs v) (rw keys_differ.1 h))
head_moved-IsTracked w x xs v j e (in_processing u h) = in_processing u (
    elem-rpush j (processing_key w) x (processing_key u) (popped xs v)
      (rw (processing_key_differs u).1 h))
head_moved-IsTracked w x xs v j e (in_ready h) = elim (elem_cons-cases j x xs (rw e at h)) [
  | inl same ↦ in_processing w (rw (bytes_eq_refl (processing_key w), same) (elem-snoc_self x _))
  | inr later ↦ in_ready (
      elem-rpush j (processing_key w) x ready_key (popped xs v)
        (rw (bytes_eq_refl ready_key) later))
]

blmove-IsTracked :
    (w : Bytes) (v : View) (j : Bytes)
    → IsTracked v j
    → IsTracked (Effects.blmove ready_key (processing_key w) v) j
blmove-IsTracked w v j t = split (v.lists ready_key) refl
  where
    split :
        (xs : List Bytes)
        → v.lists ready_key ≡ xs
        → IsTracked (Effects.move_head ready_key (processing_key w) xs v) j
    split [] e = t
    split (x ∷ xs) e = head_moved-IsTracked w x xs v j e t

module _ (R : Redis) where
  open R use {Db, view}

  -- The store after a call that may or may not have run.
  applied-IsTracked :
      (call : Call) (j : Bytes) {d d' : Db}
      → IsTracked (view d) j
      → IsTracked (view d') j
      → IsTracked (view (applied call d d')) j
  applied-IsTracked replied j t t' = t'
  applied-IsTracked request_lost j t t' = t
  applied-IsTracked reply_lost j t t' = t'

  blmove_db-IsTracked :
      (w : Bytes) (d : Db) (j : Bytes)
      → IsTracked (view d) j
      → IsTracked (view (R.blmove ready_key (processing_key w) d)) j
  blmove_db-IsTracked w d j t = rw R.view-blmove (blmove-IsTracked w (view d) j t)

  -- lremProcessing of a task that is done.
  lrem_done-IsTracked :
      (w : Bytes) (call : Call) (id : Bytes) (d : Db) (j : Bytes)
      → (view d).sets done_key id ≡ true
      → IsTracked (view d) j
      → IsTracked (view (lrem_processing R w call id d)) j
  unfolding lrem_processing
  lrem_done-IsTracked w call id d j e t =
      applied-IsTracked call j t (rw R.view-lrem (lrem-IsTracked w id (view d) j other_or_done t))
    where
      other_or_done : (bytes_eq j id ≡ false) ⊎ IsHeld w (view d) j
      other_or_done = elim (Bool-cases (bytes_eq j id)) [
        | inl same ↦ inr (is_done (rw ((bytes_eq_iff j id).0 same) e))
        | inr ne ↦ inl ne
      ]

  gate-IsTracked :
      (w : Bytes) (calls : ClaimCalls) (id : Bytes) (d : Db) (j : Bytes)
      → IsTracked (view d) j
      → IsTracked (view (gate R w calls id d).1) j
  gate-IsTracked w calls id d j t = elim (Bool-cases calls.sismember_replies) [
    | inr lost ↦ rw lost t
    | inl replies ↦ elim (Bool-cases ((view d).sets done_key id)) [
      | inl done ↦ rw (replies, done) (lrem_done-IsTracked w calls.lrem id d j done t)
      | inr fresh ↦ rw (replies, fresh) t
    ]
  ]

  moved-IsTracked :
      (w : Bytes) (calls : ClaimCalls) (xs : List Bytes) (d : Db) (j : Bytes)
      → IsTracked (view d) j
      → IsTracked (view (moved R w calls xs d).1) j
  moved-IsTracked w calls [] d j t = t
  moved-IsTracked w calls (x ∷ xs) d j t =
      gate-IsTracked w calls x (R.blmove ready_key (processing_key w) d) j
        (blmove_db-IsTracked w d j t)

  -- claim loses no task, whichever of its calls fail, before or after they took effect.
  pub claim-IsTracked :
      (w : Bytes) (calls : ClaimCalls) (d : Db) (j : Bytes)
      → IsTracked (view d) j
      → IsTracked (view (claim R w calls d).1) j
  unfolding claim
  claim-IsTracked w calls d j t = elim (Bool-cases (succeeded calls.blmove)) [
    | inl came ↦ rw came (moved-IsTracked w calls ((view d).lists ready_key) d j t)
    | inr lost ↦ rw lost (applied-IsTracked calls.blmove j t (blmove_db-IsTracked w d j t))
  ]

  gate_claimed :
      (w : Bytes) (calls : ClaimCalls) (x : Bytes) (d : Db) {id : Bytes}
      → (gate R w calls x d).0 ≡ claimed id
      → (x ≡ id) × ((view d).sets done_key x ≡ false) × ((gate R w calls x d).1 ≡ d)
  gate_claimed w calls x d h = ground arith

  -- What holds when claim gives out the task `id`.
  pub record Claimed (w id : Bytes) (d d' : Db) : Type 0 where
    pub rest : List Bytes
    pub was_head : (view d).lists ready_key ≡ id ∷ rest
    pub not_done : (view d).sets done_key id ≡ false
    pub ready_after : (view d').lists ready_key ≡ rest
    pub mine : (view d').lists (processing_key w) ≡ (view d).lists (processing_key w) ++ id ∷ []

  moved_claimed :
      (w : Bytes) (calls : ClaimCalls) (xs : List Bytes) (d : Db) {id : Bytes}
      → (view d).lists ready_key ≡ xs
      → (moved R w calls xs d).0 ≡ claimed id
      → Claimed w id d (moved R w calls xs d).1
  moved_claimed w calls [] d e h = cc
  moved_claimed w calls (x ∷ xs) d {id} e h =
      let after = R.blmove ready_key (processing_key w) d in
      let (same, fresh, kept) = gate_claimed w calls x after h in
      let shown : view after ≡ head_moved w x xs (view d) =
        R.view-blmove ready_key (processing_key w) d
        ∙ ap (λ l. Effects.move_head ready_key (processing_key w) l (view d)) e in
      record {
        rest = xs;
        was_head = e ∙ ap (λ y. y ∷ xs) same;
        not_done =
            ap (λ y. (view d).sets done_key y) (sym same)
            ∙ ap (λ v. v.sets done_key x) (sym shown)
            ∙ fresh;
        ready_after = rw (kept, shown, (processing_key_differs w).0, bytes_eq_refl ready_key) refl;
        mine =
            rw (kept, shown, bytes_eq_refl (processing_key w), (processing_key_differs w).1, same)
              refl;
      }

  -- A task that claim gives out was the head of the ready list and is not done; it has gone from the
  -- ready list to the end of this worker's own list.
  pub claim_lem :
      (w : Bytes) (calls : ClaimCalls) (d : Db) {id : Bytes}
      → (claim R w calls d).0 ≡ claimed id
      → Claimed w id d (claim R w calls d).1
  unfolding claim
  claim_lem w calls d h = elim (Bool-cases (succeeded calls.blmove)) [
    | inl came ↦ rw came (moved_claimed w calls ((view d).lists ready_key) d refl (rw came at h))
    | inr lost ↦ cc (rw lost at h)
  ]
