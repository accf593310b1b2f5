-- ===== src/Resp/Reply/Grammar.antt =====
-- RESP2 replies, and how a backend writes them: readReply reads each one whole.
use container_patterns.Common.{
  ℕ, zero, suc, ◌+◌, ◌^◌, ◌<◌, ◌≤◌, ◌≡◌, refl, sym, ap, ◌∙◌, ◌≢◌, [], ◌∷◌, ◌++◌, arith, Bytes, All,
  length, length-append, take-length-append, drop-length-append, append_assoc, append-nil,
}
use container_patterns.Decimal.{atoi, scan_number, scan_digits, format_int}
use container_patterns.Decimal.RoundTrip.{atoi-format_int}
use container_patterns.Resp.Wire.{ok, crlf}
use container_patterns.Resp.Wire.Lines.{IsInline, trim_crlf_line, read_line-append}
use container_patterns.Resp.Command.{encode_bulk}
use container_patterns.Resp.Command.RoundTrip.{format_int-IsInline}
use container_patterns.Resp.Reply.{
  read_line_raw, copy_payload, read_replies, read_body, read_reply, read_one_reply,
}

mutual
  pub data Reply : Type 0 where
    simple : Bytes → Reply
    failure : Bytes → Reply
    integer : Bytes → Reply
    bulk : Bytes → Reply
    null_bulk : Reply
    null_array : Reply
    array : Replies → Reply

  pub data Replies : Type 0 where
    nil : Replies
    cons : Reply → Replies → Replies

abbrev pub count : Replies → ℕ
count nil = 0
count (cons r rs) = suc (count rs)

-- A line of a type byte and a text.
abbrev pub encode_line : ℕ → Bytes → Bytes
encode_line c s = (c ∷ s) ++ crlf

abbrev pub minus_one : Bytes
minus_one = b'-' ∷ b'1' ∷ []

abbrev mutual
  pub encode : Reply → Bytes
  encode (simple s) = encode_line b'+' s
  encode (failure s) = encode_line b'-' s
  encode (integer s) = encode_line b':' s
  encode (bulk s) = encode_bulk s
  encode null_bulk = encode_line b'$' minus_one
  encode null_array = encode_line b'*' minus_one
  encode (array rs) = encode_line b'*' (format_int (count rs)) ++ encode_all rs

  pub encode_all : Replies → Bytes
  encode_all nil = []
  encode_all (cons r rs) = encode r ++ encode_all rs

-- A text stands on its line, and sizes are Go ints.
abbrev mutual
  pub IsWellFormed : Reply → Type 0
  IsWellFormed (simple s) = All IsInline s
  IsWellFormed (failure s) = All IsInline s
  IsWellFormed (integer s) = All IsInline s
  IsWellFormed (bulk s) = length s + 2 < 2 ^ 63
  IsWellFormed null_bulk = Unit
  IsWellFormed null_array = Unit
  IsWellFormed (array rs) = (count rs < 2 ^ 63) × AllWellFormed rs

  pub AllWellFormed : Replies → Type 0
  AllWellFormed nil = Unit
  AllWellFormed (cons r rs) = IsWellFormed r × AllWellFormed rs

read_line_raw-encode_line :
    (c : ℕ) (s buf rest : Bytes)
    → c ≢ b'\n'
    → All IsInline s
    → read_line_raw (buf, encode_line c s ++ rest) ≡ ok (c ∷ s, (buf ++ encode_line c s, rest))
unfolding read_line_raw
read_line_raw-encode_line c s buf rest hc hs =
    rw
      (
        append_assoc (c ∷ s) crlf rest,
        read_line-append (c ∷ s) rest (hc, hs),
        trim_crlf_line (c ∷ s),
      )
      refl

reply_step :
    (f c : ℕ) (s buf rest : Bytes)
    → c ≢ b'\n'
    → All IsInline s
    → read_reply (suc f) (buf, encode_line c s ++ rest)
      ≡ read_body (read_reply f) (c ∷ s) (buf ++ encode_line c s, rest)
unfolding read_reply
reply_step f c s buf rest hc hs = rw (read_line_raw-encode_line c s buf rest hc hs) refl

copy_payload-append :
    (s buf rest : Bytes)
    → length s + 2 < 2 ^ 63
    → copy_payload (length s) (buf, (s ++ crlf) ++ rest) ≡ ok (buf ++ (s ++ crlf), rest)
unfolding copy_payload
copy_payload-append s buf rest h = ground (
  arith,
  length-append (s ++ crlf) rest,
  length-append s crlf,
  take-length-append (s ++ crlf) rest,
  drop-length-append (s ++ crlf) rest,
)

encode_bulk-line :
    (s : Bytes) → encode_bulk s ≡ encode_line b'$' (format_int (length s)) ++ (s ++ crlf)
unfolding encode_bulk
encode_bulk-line s = ap (◌∷◌ b'$') (sym (append_assoc (format_int (length s)) crlf (s ++ crlf)))

read_body_bulk :
    (f : ℕ) (s buf rest : Bytes)
    → length s + 2 < 2 ^ 63
    → read_body (read_reply f) (b'$' ∷ format_int (length s)) (buf, (s ++ crlf) ++ rest)
      ≡ ok (buf ++ (s ++ crlf), rest)
unfolding read_body
read_body_bulk f s buf rest h =
    rw (atoi-format_int (length s) (omega arith)) (copy_payload-append s buf rest h)

read_reply_bulk :
    (f : ℕ) (s buf rest : Bytes)
    → length s + 2 < 2 ^ 63
    → read_reply (suc f) (buf, encode_bulk s ++ rest) ≡ ok (buf ++ encode_bulk s, rest)
read_reply_bulk f s buf rest h =
    let line = encode_line b'$' (format_int (length s)) in
    rw (encode_bulk-line s, append_assoc line (s ++ crlf) rest)
      (reply_step f b'$' (format_int (length s)) buf ((s ++ crlf) ++ rest) (λ e. omega arith)
          (format_int-IsInline (length s))
        ∙ read_body_bulk f s (buf ++ line) rest h
        ∙ ap (λ b. ok (b, rest)) (append_assoc buf line (s ++ crlf)))

minus_one-IsInline : All IsInline minus_one
minus_one-IsInline = ((λ e. omega arith), ((λ e. omega arith), tt))

-- A null reply is its line.
read_reply_null_bulk :
    (f : ℕ) (buf rest : Bytes)
    → read_reply (suc f) (buf, encode null_bulk ++ rest) ≡ ok (buf ++ encode null_bulk, rest)
unfolding read_body atoi scan_number scan_digits
read_reply_null_bulk f buf rest =
    reply_step f b'$' minus_one buf rest (λ e. omega arith) minus_one-IsInline

read_reply_null_array :
    (f : ℕ) (buf rest : Bytes)
    → read_reply (suc f) (buf, encode null_array ++ rest) ≡ ok (buf ++ encode null_array, rest)
unfolding read_body atoi scan_number scan_digits
read_reply_null_array f buf rest =
    reply_step f b'*' minus_one buf rest (λ e. omega arith) minus_one-IsInline

length-encode_bulk : (s : Bytes) → 0 < length (encode_bulk s)
unfolding encode_bulk
length-encode_bulk s = omega arith

-- An array, if its elements are read.
read_reply_array :
    (f : ℕ) (rs : Replies) (buf rest : Bytes)
    → count rs < 2 ^ 63
    → ((b : Bytes)
        → read_replies (read_reply f) (count rs) (b, encode_all rs ++ rest)
          ≡ ok (b ++ encode_all rs, rest))
    → read_reply (suc f) (buf, encode (array rs) ++ rest) ≡ ok (buf ++ encode (array rs), rest)
unfolding read_body
read_reply_array f rs buf rest h elements =
    let header = format_int (count rs) in
    let line = encode_line b'*' header in
    rw (append_assoc line (encode_all rs) rest) (
      reply_step f b'*' header buf (encode_all rs ++ rest) (λ e. omega arith)
        (format_int-IsInline (count rs))
      ∙ rw (atoi-format_int (count rs) h) (elements (buf ++ line))
      ∙ ap (λ b. ok (b, rest)) (append_assoc buf line (encode_all rs)))

mutual
  unfolding read_body read_replies

  read_reply-encode :
      (r : Reply) (f : ℕ) (buf rest : Bytes)
      → IsWellFormed r
      → length (encode r) ≤ f
      → read_reply f (buf, encode r ++ rest) ≡ ok (buf ++ encode r, rest)
  read_reply-encode (simple s) zero buf rest w h = absurd (omega arith)
  read_reply-encode (simple s) (suc f) buf rest w h =
      reply_step f b'+' s buf rest (λ e. omega arith) w
  read_reply-encode (failure s) zero buf rest w h = absurd (omega arith)
  read_reply-encode (failure s) (suc f) buf rest w h =
      reply_step f b'-' s buf rest (λ e. omega arith) w
  read_reply-encode (integer s) zero buf rest w h = absurd (omega arith)
  read_reply-encode (integer s) (suc f) buf rest w h =
      reply_step f b':' s buf rest (λ e. omega arith) w
  read_reply-encode (bulk s) zero buf rest w h = absurd (omega (arith, length-encode_bulk s))
  read_reply-encode (bulk s) (suc f) buf rest w h = read_reply_bulk f s buf rest w
  read_reply-encode null_bulk zero buf rest w h = absurd (omega arith)
  read_reply-encode null_bulk (suc f) buf rest w h = read_reply_null_bulk f buf rest
  read_reply-encode null_array zero buf rest w h = absurd (omega arith)
  read_reply-encode null_array (suc f) buf rest w h = read_reply_null_array f buf rest
  read_reply-encode (array rs) zero buf rest w h = absurd (omega arith)
  read_reply-encode (array rs) (suc f) buf rest w h =
      let line = encode_line b'*' (format_int (count rs)) in
      let fits : length (encode_all rs) ≤ f = omega (arith, length-append line (encode_all rs)) in
      read_reply_array f rs buf rest w.0 (λ b. read_replies-encode_all rs f b rest w.1 fits)

  read_replies-encode_all :
      (rs : Replies) (f : ℕ) (buf rest : Bytes)
      → AllWellFormed rs
      → length (encode_all rs) ≤ f
      → read_replies (read_reply f) (count rs) (buf, encode_all rs ++ rest)
        ≡ ok (buf ++ encode_all rs, rest)
  read_replies-encode_all nil f buf rest w h = ap (λ b. ok (b, rest)) (sym (append-nil buf))
  read_replies-encode_all (cons r rs) f buf rest w h =
      let sizes = length-append (encode r) (encode_all rs) in
      let first = read_reply-encode r f buf (encode_all rs ++ rest) w.0 (omega (arith, sizes)) in
      let others = read_replies-encode_all rs f (buf ++ encode r) rest w.1 (omega (arith, sizes)) in
      rw (append_assoc (encode r) (encode_all rs) rest, first)
        (others ∙ ap (λ b. ok (b, rest)) (append_assoc buf (encode r) (encode_all rs)))

-- Every RESP2 reply that a backend may write, null and nested ones included, is read as one reply:
-- its bytes are returned, and the reader stands right behind them, whatever follows.
pub read_one_reply-encode :
    (r : Reply) (rest : Bytes)
    → IsWellFormed r
    → read_one_reply (encode r ++ rest) ≡ ok (encode r, rest)
unfolding read_one_reply
read_one_reply-encode r rest w =
    read_reply-encode r (suc (length (encode r ++ rest))) [] rest w
      (omega (arith, length-append (encode r) rest))
