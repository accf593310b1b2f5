-- ===== src/Ambassador/Pool/Shared.antt =====
-- One pool of services/cache-ambassador/pool.go under any number of commands at once. Taking an idle
-- connection, dialling a new one, handing one back and closing one are a step each, and the steps of all
-- commands interleave in any order; a connection that is dialled is a new one.
pub mod Exclusive
pub mod Run
use container_patterns.Common.{ℕ, ◌<◌, ◌≡◌, List, [], ◌∷◌, ◌++◌, length}
use container_patterns.Ambassador.Pool.{Pool, max_idle}
use container_patterns.Ambassador.Pool.Balance.{count}

-- The pool, and the connections that commands are using.
pub record Shared : Type 0 where
  pub pool : Pool
  pub held : List ℕ

pub data Step (s : Shared) : Shared → Type 0 where
  takes :
      (c : ℕ) (idle : List ℕ)
      → s.pool.idle ≡ c ∷ idle
      → Step s (record { pool = record s.pool { idle = idle }; held = c ∷ s.held })
  dials :
      (c : ℕ)
      → count c s.pool.opened ≡ 0
      → Step s
          (record { pool = record s.pool { opened = s.pool.opened ++ c ∷ [] }; held = c ∷ s.held })
  puts :
      (c : ℕ) (before after : List ℕ)
      → s.held ≡ before ++ c ∷ after
      → length s.pool.idle < max_idle
      → Step s
          (record { pool = record s.pool { idle = s.pool.idle ++ c ∷ [] }; held = before ++ after })
  closes :
      (c : ℕ) (before after : List ℕ)
      → s.held ≡ before ++ c ∷ after
      → Step s (record {
        pool = record s.pool { closed = s.pool.closed ++ c ∷ [] };
        held = before ++ after;
      })

pub data Reach (s : Shared) : Shared → Type 0 where
  here : Reach s s
  later : {t u : Shared} → Reach s t → Step t u → Reach s u
