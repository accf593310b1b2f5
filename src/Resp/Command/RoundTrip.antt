-- ===== src/Resp/Command/RoundTrip.antt =====
-- readCommand reads back what encodeCommand writes, and never reads without taking a byte.
use container_patterns.Common.{
  ℕ, ◌+◌, ◌*◌, ◌^◌, ◌<◌, ◌≤◌, ◌≡◌, refl, sym, ap, ◌∙◌, List, [], ◌∷◌, ◌++◌, arith, Bytes, All,
  length, length-append, take, take-length-append, append_assoc,
}
use container_patterns.Decimal.{format_int}
use container_patterns.Decimal.RoundTrip.{IsDigit, IsNumber, format_int-IsNumber, atoi-format_int}
use container_patterns.Resp.Wire.{ok, err, panic, max_alloc, trim_crlf, read_line, read_full, crlf}
use container_patterns.Resp.Wire.Lines.{
  IsInline, trim_crlf_line, read_line-append, read_full-append,
}
use container_patterns.Resp.Command.{
  encode_bulk, encode_args, encode_command, make_slice, bulk_size, read_arg, read_args,
  read_multibulk, read_command,
}

digits-IsInline : (s : Bytes) → All IsDigit s → All IsInline s
digits-IsInline [] h = tt
digits-IsInline (c ∷ s) (hc, hs) = ((λ e. omega arith), digits-IsInline s hs)

number-IsInline : (s : Bytes) → IsNumber s → All IsInline s
number-IsInline [] h = absurd h
number-IsInline (c ∷ s) h = digits-IsInline (c ∷ s) h

pub format_int-IsInline : (n : ℕ) → All IsInline (format_int n)
format_int-IsInline n = number-IsInline _ (format_int-IsNumber n)

-- The line that a length makes.
length_line :
    (n : ℕ) (rest : Bytes)
    → read_line (format_int n ++ (crlf ++ rest)) ≡ ok (format_int n ++ crlf, rest)
length_line n rest = read_line-append (format_int n) rest (format_int-IsInline n)

-- The argument and its line end fit in one allocation.
abbrev pub Fits : Bytes → Type 0
Fits a = length a + 2 ≤ max_alloc

make_slice_ok : (width n : ℕ) → width * n ≤ max_alloc → make_slice width n ≡ ok tt
make_slice_ok width n h = ground arith

make_slice_panics : (width n : ℕ) → max_alloc < width * n → make_slice width n ≡ err panic
make_slice_panics width n h = ground arith

read_arg_steps :
    (input hdr input₁ bytes rest : Bytes) (n : ℕ)
    → read_line input ≡ ok (hdr, input₁)
    → bulk_size (trim_crlf hdr) ≡ ok n
    → n + 2 ≤ max_alloc
    → read_full (n + 2) input₁ ≡ ok (bytes, rest)
    → read_arg input ≡ ok (take n bytes, rest)
unfolding read_arg
read_arg_steps input hdr input₁ bytes rest n e f h g =
    rw (e, read_arg, f, make_slice_ok 1 (n + 2) (omega arith), g) refl

bulk_header : (n : ℕ) → n < 2 ^ 63 → bulk_size (trim_crlf ((b'$' ∷ format_int n) ++ crlf)) ≡ ok n
bulk_header n h = rw (trim_crlf_line, atoi-format_int n h) refl

read_arg-encode_bulk : (a rest : Bytes) → Fits a → read_arg (encode_bulk a ++ rest) ≡ ok (a, rest)
unfolding encode_bulk
read_arg-encode_bulk a rest h =
    let n = length a in
    let payload = (a ++ crlf) ++ rest in
    let header = length_header n payload in
    rw (append_assoc, append_assoc)
      (read_arg_steps _ _ _ _ _ n header (bulk_header n (omega arith)) h
          (read_full-append (a ++ crlf) rest (sym (length-append a crlf)))
        ∙ ap (λ b. ok (b, rest)) (take-length-append a crlf))
  where
    length_header :
        (n : ℕ) (payload : Bytes)
        → read_line (b'$' ∷ (format_int n ++ (crlf ++ payload)))
          ≡ ok ((b'$' ∷ format_int n) ++ crlf, payload)
    length_header n payload =
        read_line-append (b'$' ∷ format_int n) payload ((λ e. omega arith), format_int-IsInline n)

read_args-encode_args :
    (args : List Bytes) (rest : Bytes)
    → All Fits args
    → read_args (length args) (encode_args args ++ rest) ≡ ok (args, rest)
unfolding read_args encode_args
read_args-encode_args [] rest h = refl
read_args-encode_args (a ∷ args) rest h =
    rw
      (
        append_assoc,
        read_arg-encode_bulk a (encode_args args ++ rest) h.0,
        read_args-encode_args args rest h.1,
      )
      refl

-- A command that encodeCommand wrote is read back whole, and the reader stands right behind it,
-- whatever follows: pipelined commands come one by one. Each argument, and the slice of the
-- arguments, has to fit in an allocation.
pub read_command-encode_command :
    (args : List Bytes) (rest : Bytes)
    → All Fits args
    → 24 * length args ≤ max_alloc
    → read_command (encode_command args ++ rest) ≡ ok (args, rest)
unfolding read_command encode_command read_multibulk
read_command-encode_command args rest h k =
    let n = length args in
    rw (append_assoc, append_assoc, length_line n, read_multibulk, trim_crlf_line)
      (rw (atoi-format_int n (omega arith), make_slice_ok 24 n k)
        (read_args-encode_args args rest h))

-- A client whose command announces more arguments than a slice can hold makes readCommand panic, and
-- with it the process: the announced number is not checked before it is allocated.
pub read_command_panics :
    (n : ℕ) (rest : Bytes)
    → n < 2 ^ 63
    → max_alloc < 24 * n
    → read_command (b'*' ∷ (format_int n ++ (crlf ++ rest))) ≡ err panic
unfolding read_command read_multibulk
read_command_panics n rest h k =
    rw (length_line n, read_multibulk, trim_crlf_line)
      (rw (atoi-format_int n h, make_slice_panics 24 n k) refl)
