-- ===== src/Ambassador/Dispatch.antt =====
-- newServer, shardFor, dispatch and forward of services/cache-ambassador/main.go. A
-- server is its shards' pools and the network's world. An index out of range, or a division by no
-- shards, is Go's panic: `none`.
pub mod Routing
pub mod Replies
use container_patterns.Common.{
  ℕ, zero, suc, ◌+◌, ◌-◌, ◌%◌, ◌^◌, Bool, true, false, ◌&&◌, ◌||◌, Option, none, some, List, [],
  ◌∷◌, ◌++◌, Bytes, codes, bytes_eq, length, get_elem?, set, map, leb, ◌==◌, if◌then◌else◌,
}
use container_patterns.Resp.Wire.{crlf}
use container_patterns.Resp.Command.{encode_bulk, encode_command}
use container_patterns.Ambassador.Crc32.{checksum}
use container_patterns.Ambassador.Pool.{Net, Pool, new_pool, do_command}

-- The upper case of an ASCII byte, and of the two characters beyond ASCII whose upper case is in it,
-- U+0131 and U+017F.
abbrev pub upper_byte : ℕ → ℕ
upper_byte c = if leb b'a' c && leb c b'z' then c - 32 else c

abbrev pub upper_pair : ℕ → ℕ → Option ℕ
upper_pair c d =
    if c == 0xc4 && d == 0xb1 then some b'I' else if c == 0xc5 && d == 0xbf then some b'S' else none

-- `strings.ToUpper`, as far as its result can be plain ASCII.
unfoldable pub to_upper : Bytes → Bytes
to_upper [] = []
to_upper (c ∷ []) = upper_byte c ∷ []
to_upper (c ∷ d ∷ s) = elim (upper_pair c d) [
  | some u ↦ u ∷ to_upper s
  | none ↦ upper_byte c ∷ to_upper (d ∷ s)
]

pub data KeyedName : Type 0 where
  get : KeyedName
  set_key : KeyedName
  setex : KeyedName
  del : KeyedName

-- `strings.ToLower` of the name.
abbrev pub lower_name : KeyedName → Bytes
lower_name get = codes "get"
lower_name set_key = codes "set"
lower_name setex = codes "setex"
lower_name del = codes "del"

pub data Command : Type 0 where
  ping : Command
  quit : Command
  hello : Command
  client : Command
  keyed : KeyedName → Command
  unknown : Command

-- The `switch` on the upper-case name.
unfoldable pub command_of : Bytes → Command
unfolding bytes_eq
command_of name =
    if bytes_eq name (codes "PING")
    then ping
    else if bytes_eq name (codes "QUIT")
    then quit
    else if bytes_eq name (codes "HELLO")
    then hello
    else if bytes_eq name (codes "CLIENT")
    then client
    else if bytes_eq name (codes "GET")
    then keyed get
    else if bytes_eq name (codes "SET")
    then keyed set_key
    else if bytes_eq name (codes "SETEX")
    then keyed setex
    else if bytes_eq name (codes "DEL")
    then keyed del
    else unknown

-- An error line of a text.
abbrev pub error_line : Bytes → Bytes
error_line s = b'-' ∷ (s ++ crlf)

abbrev pub wrong_arguments : Bytes → Bytes
wrong_arguments name =
    error_line (codes "ERR wrong number of arguments for '" ++ (name ++ codes "' command"))

abbrev pub unknown_command : Bytes → Bytes
unknown_command name = error_line (codes "ERR unknown command '" ++ (name ++ codes "'"))

abbrev pub unavailable : Bytes
unavailable = error_line (codes "ERR ambassador: upstream shard unavailable")

abbrev pub ok_line : Bytes
ok_line = codes "+OK" ++ crlf

-- newServer
unfoldable pub new_server : List Bytes → List Pool
new_server addrs = map new_pool addrs

-- The index that shardFor takes; there is none if the number of shards is 0 as a uint32.
unfoldable pub shard_for : Bytes → ℕ → Option ℕ
shard_for key n = elim (n % 2 ^ 32) [ zero ↦ none | suc m ↦ some (checksum key % suc m) ]

module _ (N : Net) where
  open N use {World}

  abbrev pub Server : Type 0
  Server = List Pool × World

  -- What a call answers: the reply, and whether the connection is to be closed.
  abbrev pub Answer : Type 0
  Answer = (Bytes × Bool) × Server

  -- The end of forward: an error is answered as a RESP error.
  abbrev pub relayed : ℕ → List Pool → Option Bytes × (Pool × World) → Answer
  relayed i pools (none, (p, w)) = ((unavailable, false), (set pools i p, w))
  relayed i pools (some reply, (p, w)) = ((reply, false), (set pools i p, w))

  abbrev pub on_shard : Bytes → Server → ℕ → Option Pool → Option Answer
  on_shard cmd (pools, w) i none = none
  on_shard cmd (pools, w) i (some p) = some (relayed i pools (do_command N cmd (p, w)))

  abbrev pub routed : Bytes → Server → Option ℕ → Option Answer
  routed cmd (pools, w) none = none
  routed cmd (pools, w) (some i) = on_shard cmd (pools, w) i (get_elem? pools i)

  unfoldable pub forward : Bytes → List Bytes → Server → Option Answer
  forward key args (pools, w) =
      routed (encode_command args) (pools, w) (shard_for key (length pools))

  abbrev pub answer : Command → List Bytes → Server → Option Answer
  answer ping (name ∷ text ∷ _) s = some ((encode_bulk text, false), s)
  answer ping _ s = some ((codes "+PONG" ++ crlf, false), s)
  answer quit _ s = some ((ok_line, true), s)
  answer hello _ s = some ((unknown_command (codes "HELLO"), false), s)
  answer client _ s = some ((ok_line, false), s)
  answer (keyed k) (name ∷ key ∷ rest) s = forward key (name ∷ key ∷ rest) s
  answer (keyed k) _ s = some ((wrong_arguments (lower_name k), false), s)
  answer unknown (name ∷ _) s = some ((unknown_command name, false), s)
  answer unknown [] s = none

  unfoldable pub dispatch : List Bytes → Server → Option Answer
  dispatch [] s = none
  dispatch (name ∷ args) s = answer (command_of (to_upper name)) (name ∷ args) s
