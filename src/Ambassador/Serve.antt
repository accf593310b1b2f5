-- ===== src/Ambassador/Serve.antt =====
-- serve of services/cache-ambassador/main.go: the accept loop, the drain behind it and closeAll, beside
-- the connections that it has accepted. This is what one shard's pool sees: a client that is busy with
-- another shard waits here. Each operation on the pool's channel is a step, and the steps of all clients
-- interleave in any order; a connection that is dialled is a new one.
pub mod Drained
mod Tests
use container_patterns.Common.{ℕ, ◌<◌, ◌≡◌, Bool, true, false, List, [], ◌∷◌, ◌++◌, Bytes, length}
use container_patterns.Ambassador.Pool.{Pool, max_idle, new_pool}
use container_patterns.Ambassador.Pool.Balance.{count}

-- A goroutine of handleConn: between its commands, or in one on an upstream connection.
pub data Client : Type 0 where
  waiting : Client
  using : ℕ → Client

-- Where serve stands; the Boolean is whether drainTimeout ended the drain.
pub data Phase : Type 0 where
  accepting : Phase
  draining : Phase
  closing : Bool → Phase
  returned : Bool → Phase

pub record Process : Type 0 where
  pub pool : Pool
  pub clients : List Client
  pub cancelled : Bool
  pub phase : Phase

-- An error of Accept only ends the loop once the context is cancelled; before, the loop goes on and
-- nothing changes. `wg` counts the clients. closeAll takes one idle connection at a time and returns
-- when it finds none.
pub data Step (s : Process) : Process → Type 0 where
  accepts : s.phase ≡ accepting → Step s (record s { clients = waiting ∷ s.clients })
  cancels : Step s (record s { cancelled = true })
  accept_ends : s.phase ≡ accepting → s.cancelled ≡ true → Step s (record s { phase = draining })
  drains : s.phase ≡ draining → s.clients ≡ [] → Step s (record s { phase = closing false })
  times_out : s.phase ≡ draining → Step s (record s { phase = closing true })
  closes_idle :
      (b : Bool) (c : ℕ) (idle : List ℕ)
      → s.phase ≡ closing b
      → s.pool.idle ≡ c ∷ idle
      → Step s (record s { pool = record s.pool { idle = idle; closed = s.pool.closed ++ c ∷ [] } })
  returns :
      (b : Bool) → s.phase ≡ closing b → s.pool.idle ≡ [] → Step s (record s { phase = returned b })
  hangs_up :
      (before after : List Client)
      → s.clients ≡ before ++ waiting ∷ after
      → Step s (record s { clients = before ++ after })
  takes :
      (c : ℕ) (idle : List ℕ) (before after : List Client)
      → s.clients ≡ before ++ waiting ∷ after
      → s.pool.idle ≡ c ∷ idle
      → Step s
          (record s { pool = record s.pool { idle = idle }; clients = using c ∷ (before ++ after) })
  dials :
      (c : ℕ) (before after : List Client)
      → s.clients ≡ before ++ waiting ∷ after
      → count c s.pool.opened ≡ 0
      → Step s (record s {
        pool = record s.pool { opened = s.pool.opened ++ c ∷ [] };
        clients = using c ∷ (before ++ after);
      })
  puts :
      (c : ℕ) (before after : List Client)
      → s.clients ≡ before ++ using c ∷ after
      → length s.pool.idle < max_idle
      → Step s (record s {
        pool = record s.pool { idle = s.pool.idle ++ c ∷ [] };
        clients = waiting ∷ (before ++ after);
      })
  closes :
      (c : ℕ) (before after : List Client)
      → s.clients ≡ before ++ using c ∷ after
      → Step s (record s {
        pool = record s.pool { closed = s.pool.closed ++ c ∷ [] };
        clients = waiting ∷ (before ++ after);
      })

pub data Reach (s : Process) : Process → Type 0 where
  here : Reach s s
  later : {t u : Process} → Reach s t → Step t u → Reach s u

-- The call of serve, on a new server.
unfoldable pub serving : Bytes → Process
serving addr = record { pool = new_pool addr; clients = []; cancelled = false; phase = accepting }
