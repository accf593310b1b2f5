-- ===== src/Resp/Command/Progress.antt =====
-- A command that is read takes at least one byte, so the loop over a connection ends.
use container_patterns.Common.{
  ℕ, zero, suc, ◌+◌, ◌<◌, ◌≤◌, ◌≡◌, inl, inr, List, [], ◌∷◌, arith, Bytes, length, Bool-cases, ◌==◌,
}
use container_patterns.Decimal.{atoi}
use container_patterns.Resp.Wire.{ok, bind-eq-ok, trim_crlf, read_line, read_full}
use container_patterns.Resp.Wire.Lines.{read_line-Takes, read_full-splits}
use container_patterns.Resp.Command.{
  size_of, bulk_size, make_slice, read_arg, read_args, read_multibulk, read_inline, read_command,
}

read_arg-shorter :
    (input : Bytes) {a rest : Bytes} → read_arg input ≡ ok (a, rest) → length rest < length input
unfolding read_arg
read_arg-shorter input h =
    let ((hdr, input₁), line, h₁) = bind-eq-ok (read_line input) _ h in
    let (n, size, h₂) = bind-eq-ok (bulk_size (trim_crlf hdr)) _ h₁ in
    let (u, fits, h₃) = bind-eq-ok (make_slice 1 (n + 2)) _ h₂ in
    let ((bytes, input₂), full, h₄) = bind-eq-ok (read_full (n + 2) input₁) _ h₃ in
    ground (arith, read_line-Takes input line, read_full-splits (n + 2) input₁ full, h₄)

read_args-le :
    (n : ℕ) (input : Bytes) {args : List Bytes} {rest : Bytes}
    → read_args n input ≡ ok (args, rest)
    → length rest ≤ length input
unfolding read_args
read_args-le zero input h = ground arith
read_args-le (suc n) input h =
    let ((a, input₁), one, h₁) = bind-eq-ok (read_arg input) _ h in
    let ((args, input₂), more, h₂) = bind-eq-ok (read_args n input₁) _ h₁ in
    ground (arith, read_arg-shorter input one, read_args-le n input₁ more, h₂)

read_multibulk-shorter :
    (input : Bytes) {args : List Bytes} {rest : Bytes}
    → read_multibulk input ≡ ok (args, rest)
    → length rest < length input
unfolding read_multibulk
read_multibulk-shorter input h =
    let ((line, input₁), first, h₁) = bind-eq-ok (read_line input) _ h in
    let (count, size, h₂) = bind-eq-ok (size_of (atoi (trim_crlf line))) _ h₁ in
    let (u, fits, h₃) = bind-eq-ok (make_slice 24 count) _ h₂ in
    omega (arith, (read_line-Takes input first).shorter, read_args-le count input₁ h₃)

read_inline-shorter :
    (input : Bytes) {args : List Bytes} {rest : Bytes}
    → read_inline input ≡ ok (args, rest)
    → length rest < length input
unfolding read_inline
read_inline-shorter input h =
    let ((line, input₁), first, h₁) = bind-eq-ok (read_line input) _ h in
    ground (arith, (read_line-Takes input first).shorter, h₁)

-- Whatever the bytes are, a command that is read, multibulk or inline, takes at least one of them.
pub read_command-shorter :
    (input : Bytes) {args : List Bytes} {rest : Bytes}
    → read_command input ≡ ok (args, rest)
    → length rest < length input
unfolding read_command
read_command-shorter [] h = cc
read_command-shorter (c ∷ input) h = elim (Bool-cases (c == b'*')) [
  | inl multibulk ↦ omega (arith, read_multibulk-shorter input (rw multibulk at h))
  | inr plain ↦ read_inline-shorter (c ∷ input) (rw plain at h)
]
