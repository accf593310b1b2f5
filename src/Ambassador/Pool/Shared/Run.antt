-- ===== src/Ambassador/Pool/Shared/Run.antt =====
-- A command alone is a run of the steps.
use container_patterns.Common.{
  ℕ, ◌≡◌, refl, inl, inr, Option, none, some, List, [], ◌∷◌, ◌++◌, Bytes, length, Bool-cases, ltb,
  ltb→lt,
}
use container_patterns.Ambassador.Pool.{
  Net, Pool, max_idle, roundtrip, put, after_fresh, dialled, after_idle, from_idle, do_command,
}
use container_patterns.Ambassador.Pool.Balance.{count}
use container_patterns.Ambassador.Pool.Shared.{
  Shared, takes, dials, puts, closes, Reach, here, later,
}

module _ (N : Net) where
  open N use {World}

  abbrev pub with_held : List ℕ → Pool → Shared
  with_held held p = record { pool = p; held = held }

  put-Reach :
      (s : Shared) (held : List ℕ) (c : ℕ) (p : Pool) (w : World)
      → Reach s (with_held (c ∷ held) p)
      → Reach s (with_held held (put N c (p, w)).0)
  unfolding put
  put-Reach s held c p w r = elim (Bool-cases (ltb (length p.idle) max_idle)) [
    | inl room ↦ rw room (later r (puts c [] held refl (ltb→lt (length p.idle) max_idle room)))
    | inr full ↦ rw full (later r (closes c [] held refl))
  ]

  after_fresh-Reach :
      (s : Shared) (held : List ℕ) (c : ℕ) (p : Pool) (reply : Option Bytes × World)
      → Reach s (with_held (c ∷ held) p)
      → Reach s (with_held held (after_fresh N c p reply).1.0)
  after_fresh-Reach s held c p (none, w) r = later r (closes c [] held refl)
  after_fresh-Reach s held c p (some reply, w) r = put-Reach s held c p w r

  -- A connection that the network dials now is new to the pool.
  abbrev pub DialsNew : Pool → World → Type 0
  DialsNew p w = (c : ℕ) (w' : World) → N.dial p.addr w ≡ (some c, w') → count c p.opened ≡ 0

  dialled-Reach :
      (s : Shared) (held : List ℕ) (cmd : Bytes) (p : Pool) (d : Option ℕ × World)
      → ((c : ℕ) (w' : World) → d ≡ (some c, w') → count c p.opened ≡ 0)
      → Reach s (with_held held p)
      → Reach s (with_held held (dialled N cmd p d).1.0)
  dialled-Reach s held cmd p (none, w) new r = r
  dialled-Reach s held cmd p (some c, w) new r =
      after_fresh-Reach s held c (record p { opened = p.opened ++ c ∷ [] }) (roundtrip N c cmd w)
        (later r (dials c (new c w refl)))

  after_idle-Reach :
      (s : Shared) (held : List ℕ) (cmd : Bytes) (c : ℕ) (p : Pool) (reply : Option Bytes × World)
      → DialsNew p (N.close c reply.1)
      → Reach s (with_held (c ∷ held) p)
      → Reach s (with_held held (after_idle N cmd c p reply).1.0)
  after_idle-Reach s held cmd c p (some reply, w) new r = put-Reach s held c p w r
  after_idle-Reach s held cmd c p (none, w) new r =
      let v = N.close c w in
      dialled-Reach s held cmd (record p { closed = p.closed ++ c ∷ [] }) (N.dial p.addr v) new
        (later r (closes c [] held refl))

  from_idle-Reach :
      (held : List ℕ) (cmd : Bytes) (idle : List ℕ) (p : Pool) (w : World)
      → DialsNew p w
      → ((c : ℕ) → DialsNew p (N.close c (roundtrip N c cmd w).1))
      → p.idle ≡ idle
      → Reach (with_held held p) (with_held held (from_idle N cmd idle p w).1.0)
  from_idle-Reach held cmd [] p w new after e =
      dialled-Reach (with_held held p) held cmd p (N.dial p.addr w) new here
  from_idle-Reach held cmd (c ∷ idle) p w new after e =
      after_idle-Reach (with_held held p) held cmd c (record p { idle = idle })
        (roundtrip N c cmd w) (after c) (later here (takes c idle e))

  -- If what the network dials at the start, or after a failed round trip, is new to the pool: whatever
  -- connections other commands hold, pool.do changes the pool as a run of the interleaved steps
  -- does, and its own connection is no longer held when it returns, whether it succeeds, retries on a
  -- new connection or fails.
  pub do_command-Reach :
      (held : List ℕ) (cmd : Bytes) (p : Pool) (w : World)
      → DialsNew p w
      → ((c : ℕ) → DialsNew p (N.close c (roundtrip N c cmd w).1))
      → Reach (with_held held p) (with_held held (do_command N cmd (p, w)).1.0)
  unfolding do_command
  do_command-Reach held cmd p w new after = from_idle-Reach held cmd p.idle p w new after refl
