-- ===== src/LogSink/Ring.antt =====
-- The ring buffer of services/log-sink/main.go. A method returns the new ring. The mutex is not
-- modelled: each method holds it from its first statement to its last.
pub mod Refine
pub mod Abstract
use container_patterns.Common.{
  ℕ, ◌+◌, ◌%◌, ◌^◌, Bool, true, false, List, [], ◌∷◌, ◌++◌, Bytes, take, drop, set, replicate, ◌==◌,
  if◌then◌else◌,
}

-- `record`: the labels are a map of strings, carried along and never read.
pub record Record : Type 0 where
  pub ts : Bytes
  pub labels : List (Bytes × Bytes)
  pub line : Bytes

pub record Ring : Type 0 where
  pub buf : List Record
  pub next : ℕ
  pub full : Bool
  pub cap : ℕ

-- Go's zero value, which `make` fills the buffer with.
abbrev pub zero_record : Record
zero_record = record { ts = []; labels = []; line = [] }

unfoldable pub new_ring : ℕ → Ring
new_ring capacity = record {
  buf = replicate capacity zero_record;
  next = 0;
  full = false;
  cap = capacity;
}

-- The index after `i`: the sum is taken in a 64-bit word.
unfoldable pub advance : ℕ → ℕ → ℕ
advance cap i = (i + 1) % 2 ^ 64 % cap

-- A write out of range would panic in Go, and changes nothing here: `Refine.in_bounds` rules it out.
unfoldable pub add : Ring → Record → Ring
add r rec =
    let next' = advance r.cap r.next in
    record r {
      buf = set r.buf r.next rec;
      next = next';
      full = if next' == 0 then true else r.full;
    }

-- The records that are held, oldest first.
unfoldable pub snapshot : Ring → List Record
snapshot r = if r.full then drop r.next r.buf ++ take r.next r.buf else take r.next r.buf

-- The records of a push are added one by one.
unfoldable pub add_all : Ring → List Record → Ring
add_all r [] = r
add_all r (rec ∷ recs) = add_all (add r rec) recs
