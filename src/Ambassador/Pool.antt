-- ===== src/Ambassador/Pool.antt =====
-- services/cache-ambassador/pool.go: the connection pool of one shard. The network is a parameter,
-- the record `Net`. A connection is its number; `opened` and `closed` log what the pool has dialled
-- and closed, and no operation reads them.
pub mod Balance
pub mod Shared
use container_patterns.Common.{
  ℕ, suc, ◌+◌, Bool, true, false, Option, none, some, List, [], ◌∷◌, ◌++◌, Bytes, length, ltb, ◌==◌,
  if◌then◌else◌,
}
use container_patterns.Resp.Wire.{Result, ok, err}
use container_patterns.Resp.Reply.{read_one_reply}

-- What the pool asks of the network: dialling, deadlines and writes may fail; `incoming` is what a
-- connection will still deliver, its reader's buffer included, up to its end or its deadline, and
-- `advance` moves the reader on.
pub record Net : Type 1 where
  pub World : Type 0
  pub dial : Bytes → World → Option ℕ × World
  pub set_deadline : ℕ → World → Bool × World
  pub clear_deadline : ℕ → World → Bool × World
  pub write : ℕ → Bytes → World → Bool × World
  pub incoming : ℕ → World → Bytes
  pub advance : ℕ → Bytes → World → World
  pub close : ℕ → World → World

pub record Pool : Type 0 where
  pub addr : Bytes
  pub idle : List ℕ
  pub opened : List ℕ
  pub closed : List ℕ

abbrev pub max_idle : ℕ
max_idle = 16

unfoldable pub new_pool : Bytes → Pool
new_pool addr = record { addr = addr; idle = []; opened = []; closed = [] }

module _ (N : Net) where
  open N use {World, dial, set_deadline, clear_deadline, write, incoming, advance, close}

  -- The end of roundtrip, once a reply is read.
  abbrev pub settle : Bytes → Bool × World → Option Bytes × World
  settle reply (true, w) = (some reply, w)
  settle reply (false, w) = (none, w)

  abbrev pub read_back : ℕ → Result (Bytes × Bytes) → World → Option Bytes × World
  read_back c (ok (reply, rest)) w = settle reply (clear_deadline c (advance c rest w))
  read_back c (err e) w = (none, w)

  abbrev pub written : ℕ → Bool × World → Option Bytes × World
  written c (true, w) = read_back c (read_one_reply (incoming c w)) w
  written c (false, w) = (none, w)

  abbrev pub deadline_set : ℕ → Bytes → Bool × World → Option Bytes × World
  deadline_set c cmd (true, w) = written c (write c cmd w)
  deadline_set c cmd (false, w) = (none, w)

  -- conn.roundtrip; `none` is an error.
  unfoldable pub roundtrip : ℕ → Bytes → World → Option Bytes × World
  roundtrip c cmd w = deadline_set c cmd (set_deadline c w)

  abbrev pub close_conn : ℕ → Pool × World → Pool × World
  close_conn c (p, w) = (record p { closed = p.closed ++ c ∷ [] }, close c w)

  -- A connection goes back behind the idle ones, or is closed if there are `max_idle`.
  unfoldable pub put : ℕ → Pool × World → Pool × World
  put c (p, w) =
      if ltb (length p.idle) max_idle
      then (record p { idle = p.idle ++ c ∷ [] }, w)
      else close_conn c (p, w)

  -- The outcome of a round trip on a connection that has just been dialled.
  abbrev pub after_fresh : ℕ → Pool → Option Bytes × World → Option Bytes × (Pool × World)
  after_fresh c p (none, w) = (none, close_conn c (p, w))
  after_fresh c p (some reply, w) = (some reply, put c (p, w))

  abbrev pub dialled : Bytes → Pool → Option ℕ × World → Option Bytes × (Pool × World)
  dialled cmd p (none, w) = (none, (p, w))
  dialled cmd p (some c, w) =
      after_fresh c (record p { opened = p.opened ++ c ∷ [] }) (roundtrip c cmd w)

  -- fresh, and the second half of do.
  abbrev pub on_fresh : Bytes → Pool × World → Option Bytes × (Pool × World)
  on_fresh cmd (p, w) = dialled cmd p (dial p.addr w)

  -- The outcome of a round trip on a connection that was idle.
  abbrev pub after_idle : Bytes → ℕ → Pool → Option Bytes × World → Option Bytes × (Pool × World)
  after_idle cmd c p (none, w) = on_fresh cmd (close_conn c (p, w))
  after_idle cmd c p (some reply, w) = (some reply, put c (p, w))

  abbrev pub from_idle : Bytes → List ℕ → Pool → World → Option Bytes × (Pool × World)
  from_idle cmd [] p w = on_fresh cmd (p, w)
  from_idle cmd (c ∷ idle) p w = after_idle cmd c (record p { idle = idle }) (roundtrip c cmd w)

  -- pool.do
  unfoldable pub do_command : Bytes → Pool × World → Option Bytes × (Pool × World)
  do_command cmd (p, w) = from_idle cmd p.idle p w

  -- closeAll takes the idle connections one by one.
  unfoldable pub close_idle : List ℕ → Pool × World → Pool × World
  close_idle [] s = s
  close_idle (c ∷ cs) s = close_idle cs (close_conn c s)

  unfoldable pub close_all : Pool × World → Pool × World
  unfolding close_idle
  close_all (p, w) = close_idle p.idle (record p { idle = [] }, w)
