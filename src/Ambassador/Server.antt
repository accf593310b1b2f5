-- ===== src/Ambassador/Server.antt =====
-- handleConn of services/cache-ambassador/main.go, with the bufio.Writer of its replies. `input` is what
-- the client will still send up to its end, and `idle`, on what is left of it, is whether the reader's
-- buffer is empty then, which depends on how the bytes arrive. Writes to the client are taken to
-- succeed.
pub mod Session
use container_patterns.Common.{
  ℕ, zero, suc, ◌+◌, ◌-◌, Bool, true, false, ◌||◌, Option, none, some, List, [], ◌∷◌, ◌++◌, Bytes,
  take, drop, length, leb, if◌then◌else◌,
}
use container_patterns.Resp.Wire.{ReadError, panic, Result, ok, err}
use container_patterns.Resp.Command.{read_command}
use container_patterns.Ambassador.Pool.{Net}
use container_patterns.Ambassador.Dispatch.{Server, Answer, dispatch}

-- What the client has been sent, and what waits in the writer's buffer.
pub record Out : Type 0 where
  pub sent : Bytes
  pub pending : Bytes

abbrev pub buffer_size : ℕ
buffer_size = 4096

abbrev pub no_output : Out
no_output = record { sent = []; pending = [] }

-- A write into an empty buffer, and what is left of a longer one once the buffer has been filled and
-- flushed.
abbrev pub write_rest : Bytes → Bytes → Out
write_rest done p =
    if leb (length p) buffer_size
    then record { sent = done; pending = p }
    else record { sent = done ++ p; pending = [] }

-- Writer.Write: what fits is buffered; a longer text fills the buffer first, if it is not empty, and
-- with an empty buffer it is sent at once.
abbrev pub write_onto : Bytes → Bytes → Bytes → Out
write_onto p done [] = write_rest done p
write_onto p done (c ∷ cs) =
    let room = buffer_size - length (c ∷ cs) in
    if leb (length p) room
    then record { sent = done; pending = (c ∷ cs) ++ p }
    else write_rest (done ++ ((c ∷ cs) ++ take room p)) (drop room p)

unfoldable pub write : Bytes → Out → Out
write p o = write_onto p o.sent o.pending

-- Writer.Flush
unfoldable pub flush : Out → Out
flush o = record { sent = o.sent ++ o.pending; pending = [] }

-- How a connection ends: the input ends or is refused, QUIT, a panic, or not within the fuel.
pub data ConnEnd : Type 0 where
  dropped : ReadError → ConnEnd
  quitted : ConnEnd
  panicked : ConnEnd
  no_fuel : ConnEnd

module _ (N : Net) (idle : Bytes → Bool) where
  abbrev pub Ended : Type 0
  Ended = ConnEnd × (Out × Server N)

  -- The end of one round; `again` is the next one.
  abbrev pub next_round : (Bytes → Out → Server N → Ended) → Bool → Bytes → Out → Server N → Ended
  next_round again true rest o s = (quitted, (flush o, s))
  next_round again false rest o s = again rest (if idle rest then flush o else o) s

  abbrev pub replied :
      (Bytes → Out → Server N → Ended) → Bytes → Out → Server N → Option (Answer N) → Ended
  replied again rest o s none = (panicked, (o, s))
  replied again rest o s (some ((reply, close), s')) =
      next_round again close rest (write reply o) s'

  abbrev pub after_read :
      (Bytes → Out → Server N → Ended) → Result (List Bytes × Bytes) → Out → Server N → Ended
  after_read again (err panic) o s = (panicked, (o, s))
  after_read again (err e) o s = (dropped e, (o, s))
  after_read again (ok ([], rest)) o s = again rest o s
  after_read again (ok (a ∷ args, rest)) o s = replied again rest o s (dispatch N (a ∷ args) s)

  unfoldable pub handle_conn : ℕ → Bytes → Out → Server N → Ended
  unfolding write flush
  handle_conn zero input o s = (no_fuel, (o, s))
  handle_conn (suc fuel) input o s = after_read (handle_conn fuel) (read_command input) o s

  -- A whole connection.
  unfoldable pub serve_conn : Bytes → Server N → Ended
  unfolding handle_conn
  serve_conn input s = handle_conn (suc (length input)) input no_output s
