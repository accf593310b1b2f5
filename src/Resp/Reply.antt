-- ===== src/Resp/Reply.antt =====
-- readReply and readLineRaw of services/cache-ambassador/resp.go. `buf` is the bytes.Buffer that the
-- reply's raw bytes are appended to. The recursion takes fuel; `read_one_reply` gives one more than
-- the bytes that are left, and `Total` proves that enough.
pub mod Verbatim
pub mod Total
pub mod Grammar
use container_patterns.Common.{
  ℕ, zero, suc, ◌+◌, ◌-◌, ◌^◌, Bool, ◌||◌, Option, none, some, List, [], ◌∷◌, ◌++◌, Bytes, take,
  drop, length, ltb, leb, ◌==◌, if◌then◌else◌,
}
use container_patterns.Decimal.{ℤ, pos, negsuc, atoi}
use container_patterns.Resp.Wire.{
  Result, ok, err, eof, protocol, reply_type, out_of_fuel, ◌>>=◌, trim_crlf, read_line,
}

-- The buffer, and the input that is left.
abbrev pub State : Type 0
State = Bytes × Bytes

-- A line without its end; the buffer has the whole of it.
unfoldable pub read_line_raw : State → Result (Bytes × State)
read_line_raw (buf, input) = do
  (line, rest) ← read_line input
  ok (trim_crlf line, (buf ++ line, rest))

-- io.CopyN of `int64(n) + 2` bytes. Past 2^63 the sum is negative, and CopyN copies nothing and
-- reports no error.
unfoldable pub copy_payload : ℕ → State → Result State
copy_payload n (buf, input) =
    if leb (2 ^ 63) (n + 2)
    then ok (buf, input)
    else if ltb (length input) (n + 2)
    then err eof
    else ok (buf ++ take (n + 2) input, drop (n + 2) input)

-- `for i := 0; i < n; i++`: `read` is the call of readReply.
unfoldable pub read_replies : (State → Result State) → ℕ → State → Result State
read_replies read zero s = ok s
read_replies read (suc n) s = do s' ← read s; read_replies read n s'

-- The case '$', on the number behind it: a negative one is the null bulk string.
abbrev pub read_bulk : Option ℤ → State → Result State
read_bulk none s = err protocol
read_bulk (some (negsuc n)) s = ok s
read_bulk (some (pos n)) s = copy_payload n s

-- The case '*'.
abbrev pub read_array : (State → Result State) → Option ℤ → State → Result State
read_array read none s = err protocol
read_array read (some (negsuc n)) s = ok s
read_array read (some (pos n)) s = read_replies read n s

-- The `switch` on the line's first byte.
unfoldable pub read_body : (State → Result State) → Bytes → State → Result State
unfolding copy_payload read_replies
read_body read [] s = err protocol
read_body read (c ∷ line) s =
    if c == b'+' || (c == b'-' || c == b':')
    then ok s
    else if c == b'$'
    then read_bulk (atoi line) s
    else if c == b'*'
    then read_array read (atoi line) s
    else err (reply_type c)

unfoldable pub read_reply : ℕ → State → Result State
unfolding read_line_raw
read_reply zero s = err out_of_fuel
read_reply (suc fuel) s = do (line, s') ← read_line_raw s; read_body (read_reply fuel) line s'

-- One reply off the front of a connection: its raw bytes, and what is left.
unfoldable pub read_one_reply : Bytes → Result State
unfolding read_reply
read_one_reply input = read_reply (suc (length input)) ([], input)
