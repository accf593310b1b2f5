-- ===== src/Ambassador/Pool/Shared/Exclusive.antt =====
-- A connection serves one command at a time.
use container_patterns.Common.{
  ℕ, ◌+◌, ◌≤◌, ◌≡◌, refl, ap, ◌∙◌, inl, inr, arith, Bool, List, [], ◌∷◌, ◌++◌, Bytes, length,
  length-append, Bool-cases, ◌==◌, ==_iff, if◌then◌else◌,
}
use container_patterns.Ambassador.Pool.{max_idle, new_pool}
use container_patterns.Ambassador.Pool.Balance.{count, count-append, Balanced}
use container_patterns.Ambassador.Pool.Shared.{
  Shared, Step, takes, dials, puts, closes, Reach, here, later,
}

pub record Exclusive (s : Shared) : Type 0 where
  pub balanced : Balanced s.held s.pool
  pub once : (c : ℕ) → count c s.pool.opened ≤ 1

-- Taking a connection out of the held ones.
count_middle :
    (d c : ℕ) (before after : List ℕ) {held : List ℕ}
    → held ≡ before ++ c ∷ after
    → count d held ≡ count d (before ++ after) + count d (c ∷ [])
unfolding count
count_middle d c before after e =
    omega (arith, ap (count d) e, count-append d before (c ∷ after), count-append d before after)

abbrev one_if : Bool → ℕ
one_if b = if b then 1 else 0

once_more :
    (d c : ℕ) (opened : List ℕ)
    → count c opened ≡ 0
    → count d opened ≤ 1
    → count d (opened ++ c ∷ []) ≤ 1
unfolding count
once_more d c opened new one = elim (Bool-cases (d == c)) [
  | inl same ↦
      let none_yet = ap (λ x. count x opened) ((==_iff d c).0 same) ∙ new in
      omega (arith, count-append d opened (c ∷ []), none_yet, ap one_if same)
  | inr other ↦ omega (arith, count-append d opened (c ∷ []), one, ap one_if other)
]

Step-Exclusive : {s t : Shared} → Step s t → Exclusive s → Exclusive t
unfolding count
Step-Exclusive {s = s} (takes c idle e) x = record {
  balanced = record {
    whole = λ d. omega (arith, x.balanced.whole d, ap (count d) e);
    few = omega (arith, x.balanced.few, ap length e);
  };
  once = x.once;
}
Step-Exclusive {s = s} (dials c new) x = record {
  balanced = record {
    whole = λ d. omega (arith, x.balanced.whole d, count-append d s.pool.opened (c ∷ []));
    few = x.balanced.few;
  };
  once = λ d. once_more d c s.pool.opened new (x.once d);
}
Step-Exclusive {s = s} (puts c before after e room) x = record {
  balanced = record {
    whole = λ d. omega (
      arith,
      x.balanced.whole d,
      count_middle d c before after e,
      count-append d s.pool.idle (c ∷ []),
    );
    few = omega (arith, room, length-append s.pool.idle (c ∷ []));
  };
  once = x.once;
}
Step-Exclusive {s = s} (closes c before after e) x = record {
  balanced = record {
    whole = λ d. omega (
      arith,
      x.balanced.whole d,
      count_middle d c before after e,
      count-append d s.pool.closed (c ∷ []),
    );
    few = x.balanced.few;
  };
  once = x.once;
}

pub Reach-Exclusive : {s t : Shared} → Reach s t → Exclusive s → Exclusive t
Reach-Exclusive here x = x
Reach-Exclusive (later r s) x = Step-Exclusive s (Reach-Exclusive r x)

-- A new pool, which nobody uses.
abbrev pub unused : Bytes → Shared
unused addr = record { pool = new_pool addr; held = [] }

unused-Exclusive : (addr : Bytes) → Exclusive (unused addr)
unfolding new_pool count
unused-Exclusive addr = record {
  balanced = record { whole = λ c. refl; few = omega arith };
  once = λ c. omega arith;
}

-- However the commands on one pool interleave, if each connection that is dialled is a new one: a
-- connection is in use by at most one command, and one that is in use is neither idle nor closed;
-- an idle one is not closed either, none is closed twice, none that was dialled is lost, and at
-- most max_idle are idle.
pub pool_exclusive :
    (addr : Bytes) (s : Shared) (c : ℕ)
    → Reach (unused addr) s
    → (count c s.held + count c s.pool.idle + count c s.pool.closed ≡ count c s.pool.opened)
      × (count c s.pool.opened ≤ 1)
      × (length s.pool.idle ≤ max_idle)
pool_exclusive addr s c r =
    let x = Reach-Exclusive r (unused-Exclusive addr) in
    (x.balanced.whole c, x.once c, x.balanced.few)
