-- ===== src/Resp/Command.antt =====
-- readCommand, encodeCommand and encodeBulk of services/cache-ambassador/resp.go.
pub mod Fields
pub mod RoundTrip
pub mod Progress
use container_patterns.Common.{
  ℕ, zero, suc, ◌+◌, ◌*◌, ◌^◌, Bool, Option, none, some, List, [], ◌∷◌, ◌++◌, Bytes, take, length,
  ltb, ◌==◌, if◌then◌else◌,
}
use container_patterns.Decimal.{ℤ, pos, negsuc, atoi, format_int}
use container_patterns.Resp.Wire.{
  Result, ok, err, eof, protocol, panic, ◌>>=◌, max_alloc, trim_crlf, read_line, read_full, crlf,
}
use container_patterns.Resp.Command.Fields.{fields}

-- encodeBulk; also one argument of encodeCommand.
unfoldable pub encode_bulk : Bytes → Bytes
encode_bulk v = b'$' ∷ (format_int (length v) ++ (crlf ++ (v ++ crlf)))

unfoldable pub encode_args : List Bytes → Bytes
encode_args [] = []
encode_args (a ∷ args) = encode_bulk a ++ encode_args args

unfoldable pub encode_command : List Bytes → Bytes
encode_command args = b'*' ∷ (format_int (length args) ++ (crlf ++ encode_args args))

-- `strconv.Atoi`, refused if negative.
abbrev pub size_of : Option ℤ → Result ℕ
size_of none = err protocol
size_of (some (pos n)) = ok n
size_of (some (negsuc n)) = err protocol

-- `make([]T, n)` of elements of `width` bytes panics if the slice cannot be allocated; `n + 2` is
-- an int, and negative past 2^63.
abbrev pub make_slice : ℕ → ℕ → Result (Unit {0})
make_slice width n = if ltb max_alloc (width * n) then err panic else ok tt

-- The number behind the header's first byte, which has to be '$'.
abbrev pub bulk_size : Bytes → Result ℕ
bulk_size [] = err protocol
bulk_size (c ∷ h) = if c == b'$' then size_of (atoi h) else err protocol

-- One argument: its header, then `n` bytes and two more, whatever they are.
unfoldable pub read_arg : Bytes → Result (Bytes × Bytes)
read_arg input = do
  (hdr, input₁) ← read_line input
  n ← bulk_size (trim_crlf hdr)
  _ ← make_slice 1 (n + 2)
  (bytes, input₂) ← read_full (n + 2) input₁
  ok (take n bytes, input₂)

unfoldable pub read_args : ℕ → Bytes → Result (List Bytes × Bytes)
read_args zero input = ok ([], input)
read_args (suc n) input = do
  (a, input₁) ← read_arg input
  (args, input₂) ← read_args n input₁
  ok (a ∷ args, input₂)

-- A slice header is 24 bytes wide.
unfoldable pub read_multibulk : Bytes → Result (List Bytes × Bytes)
read_multibulk input = do
  (line, input₁) ← read_line input
  count ← size_of (atoi (trim_crlf line))
  _ ← make_slice 24 count
  read_args count input₁

unfoldable pub read_inline : Bytes → Result (List Bytes × Bytes)
read_inline input = do (line, rest) ← read_line input; ok (fields (trim_crlf line), rest)

unfoldable pub read_command : Bytes → Result (List Bytes × Bytes)
read_command [] = err eof
read_command (c ∷ input) = if c == b'*' then read_multibulk input else read_inline (c ∷ input)
