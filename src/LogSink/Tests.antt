-- ===== src/LogSink/Tests.antt =====
-- Runs of the log sink, and each theorem at an input that meets its hypotheses.
use Prim.Native.String.{String}
use mathlib.Core.Path.{transport}
use container_patterns.Common.{
  ◌≡◌, refl, Option, none, some, List, [], ◌∷◌, arith, Bytes, codes, reverse, select, last_n,
  bytes_eq,
}
use container_patterns.LogSink.Ring.{Record, new_ring, advance, add, add_all, snapshot}
use container_patterns.LogSink.Ring.Refine.{IsValid, new_ring_refines}
use container_patterns.LogSink.Ring.Abstract.{Log, Recent, log_add, recent_add, log_is_recent}
use container_patterns.LogSink.Handlers.{
  LogStream, post, push_streams, contains, handle_push, handle_query, matches,
}
use container_patterns.LogSink.Handlers.Laws.{records_of, query-push}

abbrev entry : String → Record
entry s = record { ts = []; labels = []; line = codes s }

abbrev entries : List Record
entries = entry "a" ∷ entry "b" ∷ entry "c" ∷ entry "d" ∷ []

-- Four records in a ring of three: the oldest is gone.
ring_wraps : snapshot (add_all (new_ring 3) entries) ≡ entry "b" ∷ entry "c" ∷ entry "d" ∷ []
unfolding snapshot add_all add new_ring advance
ring_wraps = refl

new_ring_refines_example :
    IsValid (add_all (new_ring 3) entries)
    × (snapshot (add_all (new_ring 3) entries) ≡ last_n 3 entries)
new_ring_refines_example = new_ring_refines 3 entries (omega arith) (omega arith)

-- One stream of two lines, whatever the body is.
abbrev app_stream : LogStream
app_stream = record {
  stream = [];
  values = (codes "1" ∷ codes "first" ∷ []) ∷ [] ∷ (codes "last" ∷ []) ∷ [];
}

abbrev decode_one : Bytes → Option (List LogStream)
decode_one [] = none
decode_one (c ∷ cs) = some (app_stream ∷ [])

query-push_example :
    handle_query (codes "st") (handle_push decode_one post (codes "x") (new_ring 2)).1
    ≡ select (matches (codes "st")) (reverse (last_n 2 (records_of (app_stream ∷ []))))
query-push_example =
    query-push decode_one 2 (codes "x") (codes "st") (app_stream ∷ []) (omega arith) (omega arith)
      refl

query_newest_first :
    handle_query (codes "st") (handle_push decode_one post (codes "x") (new_ring 2)).1
    ≡ entry "last" ∷ record { ts = codes "1"; labels = []; line = codes "first" } ∷ []
unfolding handle_query handle_push snapshot add new_ring advance contains select push_streams
    bytes_eq
query_newest_first = refl

log_is_recent_example :
    (p : Log 3 ≡ Recent 3) × ((rec : Record) (q : Log 3)
      → transport p (log_add 3 rec q) ≡ recent_add 3 rec (transport p q))
log_is_recent_example = log_is_recent 3 (omega arith) (omega arith)
