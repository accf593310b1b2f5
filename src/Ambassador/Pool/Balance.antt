-- ===== src/Ambassador/Pool/Balance.antt =====
-- The pool loses no connection: each one that was dialled is idle or has been closed, once.
use container_patterns.Common.{
  ℕ, ◌+◌, ◌≤◌, ◌≡◌, refl, ap, inl, inr, Option, none, some, List, [], ◌∷◌, ◌++◌, arith, Bytes,
  length, length-append, Bool-cases, ltb, ltb→lt, ◌==◌, if◌then◌else◌,
}
use container_patterns.Ambassador.Pool.{
  Net, Pool, max_idle, roundtrip, close_conn, put, after_fresh, dialled, after_idle, from_idle,
  do_command,
}

-- How often a number occurs in a list.
unfoldable pub count : ℕ → List ℕ → ℕ
count c [] = 0
count c (x ∷ xs) = (if c == x then 1 else 0) + count c xs

pub count-append : (c : ℕ) (xs ys : List ℕ) → count c (xs ++ ys) ≡ count c xs + count c ys
unfolding count
count-append c [] ys = omega arith
count-append c (x ∷ xs) ys = omega (arith, count-append c xs ys)

-- Every connection is idle or closed as often as it was dialled, and the idle ones keep the limit;
-- `out` are the connections that a call holds at the moment.
pub record Balanced (out : List ℕ) (p : Pool) : Type 0 where
  pub whole : (c : ℕ) → count c out + count c p.idle + count c p.closed ≡ count c p.opened
  pub few : length p.idle ≤ max_idle

module _ (N : Net) where
  open N use {World}

  close_conn-Balanced :
      (c : ℕ) (s : Pool × World) → Balanced (c ∷ []) s.0 → Balanced [] (close_conn N c s).0
  unfolding count
  close_conn-Balanced c (p, w) b = record {
    whole = λ d. omega (arith, b.whole d, count-append d p.closed (c ∷ []));
    few = b.few;
  }

  put-Balanced : (c : ℕ) (s : Pool × World) → Balanced (c ∷ []) s.0 → Balanced [] (put N c s).0
  unfolding put count
  put-Balanced c (p, w) b = elim (Bool-cases (ltb (length p.idle) max_idle)) [
    | inl room ↦ rw room (record {
      whole = λ d. omega (arith, b.whole d, count-append d p.idle (c ∷ []));
      few = omega (arith, ltb→lt (length p.idle) max_idle room, length-append p.idle (c ∷ []));
    })
    | inr full ↦ rw full (close_conn-Balanced c (p, w) b)
  ]

  dialled-Balanced :
      (cmd : Bytes) (p : Pool) (r : Option ℕ × World)
      → Balanced [] p
      → Balanced [] (dialled N cmd p r).1.0
  unfolding count
  dialled-Balanced cmd p (none, w) b = b
  dialled-Balanced cmd p (some c, w) b = after (roundtrip N c cmd w)
    where
      p' : Pool
      p' = record p { opened = p.opened ++ c ∷ [] }

      held : Balanced (c ∷ []) p'
      held = record {
        whole = λ d. omega (arith, b.whole d, count-append d p.opened (c ∷ []));
        few = b.few;
      }

      after : (r : Option Bytes × World) → Balanced [] (after_fresh N c p' r).1.0
      after (none, v) = close_conn-Balanced c (p', v) held
      after (some reply, v) = put-Balanced c (p', v) held

  after_idle-Balanced :
      (cmd : Bytes) (c : ℕ) (p : Pool) (r : Option Bytes × World)
      → Balanced (c ∷ []) p
      → Balanced [] (after_idle N cmd c p r).1.0
  after_idle-Balanced cmd c p (some reply, w) b = put-Balanced c (p, w) b
  after_idle-Balanced cmd c p (none, w) b =
      dialled-Balanced cmd _ _ (close_conn-Balanced c (p, w) b)

  from_idle-Balanced :
      (cmd : Bytes) (idle : List ℕ) (p : Pool) (w : World)
      → p.idle ≡ idle
      → Balanced [] p
      → Balanced [] (from_idle N cmd idle p w).1.0
  unfolding count
  from_idle-Balanced cmd [] p w e b = dialled-Balanced cmd p (N.dial p.addr w) b
  from_idle-Balanced cmd (c ∷ idle) p w e b =
      after_idle-Balanced cmd c (record p { idle = idle }) (roundtrip N c cmd w)
        (record {
          whole = λ d. omega (arith, b.whole d, ap (count d) e);
          few = omega (arith, b.few, ap length e);
        })

  -- Whatever the network does, a command leaves the pool balanced: each connection that it took or
  -- dialled is back among the idle ones or closed, exactly once, and at most 16 are idle.
  pub do_command-Balanced :
      (cmd : Bytes) (p : Pool) (w : World)
      → Balanced [] p
      → Balanced [] (do_command N cmd (p, w)).1.0
  unfolding do_command
  do_command-Balanced cmd p w b = from_idle-Balanced cmd p.idle p w refl b
