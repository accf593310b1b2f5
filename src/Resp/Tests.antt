-- ===== src/Resp/Tests.antt =====
-- Replies and commands of the program's own tests, and each theorem at an input that meets its
-- hypotheses.
use container_patterns.Common.{◌^◌, ◌≡◌, ◌≢◌, refl, List, [], ◌∷◌, ◌++◌, arith, Bytes, codes}
use container_patterns.Decimal.{format_int}
use container_patterns.Resp.Wire.{ok, err, panic, out_of_fuel, crlf, trim_crlf, read_line}
use container_patterns.Resp.Command.{encode_command, read_command, read_inline}
use container_patterns.Resp.Command.Fields.{fields}
use container_patterns.Resp.Command.RoundTrip.{read_command-encode_command, read_command_panics}
use container_patterns.Resp.Reply.{read_one_reply, read_body}
use container_patterns.Resp.Reply.Grammar.{
  Reply, integer, bulk, null_bulk, array, nil, cons, encode, read_one_reply-encode,
}
use container_patterns.Resp.Reply.Verbatim.{read_one_reply_verbatim}
use container_patterns.Resp.Reply.Total.{read_one_reply_total}

-- SET k v, and then a PING.
abbrev set_command : List Bytes
set_command = codes "SET" ∷ codes "k" ∷ codes "v" ∷ []

read_command-encode_command_example :
    read_command (encode_command set_command ++ encode_command (codes "PING" ∷ []))
    ≡ ok (set_command, encode_command (codes "PING" ∷ []))
read_command-encode_command_example =
    read_command-encode_command set_command (encode_command (codes "PING" ∷ [])) (omega arith)
      (omega arith)

inline_ping : read_command (codes "PING" ++ crlf) ≡ ok (codes "PING" ∷ [], [])
unfolding read_command read_inline read_line trim_crlf fields
inline_ping = refl

read_command_panics_example :
    read_command (b'*' ∷ (format_int (2 ^ 48) ++ (crlf ++ []))) ≡ err panic
read_command_panics_example = read_command_panics (2 ^ 48) [] (omega arith) (omega arith)

-- An array of a bulk string, a null and a nested array.
abbrev nested : Reply
nested =
    array (
      cons (bulk (codes "foo"))
        (cons null_bulk (cons (array (cons (integer (codes "7")) nil)) nil)))

read_one_reply-encode_example :
    read_one_reply (encode nested ++ codes "+OK") ≡ ok (encode nested, codes "+OK")
read_one_reply-encode_example = read_one_reply-encode nested (codes "+OK") (omega arith)

simple_ok : read_one_reply (codes "+OK" ++ crlf) ≡ ok (codes "+OK" ++ crlf, [])
unfolding read_one_reply read_body read_line trim_crlf
simple_ok = refl

read_one_reply_verbatim_example : codes "+OK" ++ crlf ≡ (codes "+OK" ++ crlf) ++ []
read_one_reply_verbatim_example = read_one_reply_verbatim (codes "+OK" ++ crlf) simple_ok

read_one_reply_total_example : read_one_reply (codes "*2") ≢ err out_of_fuel
read_one_reply_total_example = read_one_reply_total (codes "*2")
