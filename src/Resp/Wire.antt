-- ===== src/Resp/Wire.antt =====
-- What both readers of resp.go share: lines, trimCRLF, fixed-size reads, and the ways to fail.
pub mod Lines
use container_patterns.Common.{
  ℕ, ◌+◌, ◌*◌, ◌^◌, Bool, Option, none, some, List, [], ◌∷◌, ◌++◌, Bytes, ◌≡◌, refl, ap, ◌⊎◌, inl,
  inr, take, drop, length, ltb, ◌==◌, if◌then◌else◌,
}

-- `protocol` is errProtocol, `reply_type` the error of an unknown reply type. `panic` is a `make`
-- that Go refuses at run time; `out_of_fuel` is of the model.
pub data ReadError : Type 0 where
  eof : ReadError
  protocol : ReadError
  reply_type : ℕ → ReadError
  panic : ReadError
  out_of_fuel : ReadError

-- What a reader returns.
pub data Result {ℓ} (Out : Type ℓ) : Type ℓ where
  err : ReadError → Result Out
  ok : Out → Result Out

module _ {ℓ κ} {X : Type ℓ} {Y : Type κ} where
  infixl 5 ◌>>=◌
  abbrev pub ◌>>=◌ : Result X → (X → Result Y) → Result Y
  err why >>= later = err why
  ok x >>= later = later x

  -- A chain that succeeds, and one that fails, by its first reader.
  pub bind-eq-err :
      (first : Result X) (later : X → Result Y) {why : ReadError}
      → (first >>= later) ≡ err why
      → (first ≡ err why) ⊎ ((x : X) × (first ≡ ok x) × (later x ≡ err why))
  bind-eq-err (err other) later failed = inl (cc)
  bind-eq-err (ok x) later failed = inr (x, refl, failed)

  pub bind-eq-ok :
      (first : Result X) (later : X → Result Y) {y : Y}
      → (first >>= later) ≡ ok y
      → (x : X) × (first ≡ ok x) × (later x ≡ ok y)
  bind-eq-ok (err why) later done = cc
  bind-eq-ok (ok x) later done = (x, refl, done)

abbrev value_or {ℓ} : {A : Type ℓ} → A → Result A → A
value_or d (ok a) = a
value_or d (err e) = d

pub ok-injective {ℓ} : {A : Type ℓ} {a b : A} → ok a ≡ ok b → a ≡ b
ok-injective {a} h = ap (value_or a) h

-- The most bytes that one allocation may hold on a 64-bit Linux.
abbrev pub max_alloc : ℕ
max_alloc = 2 ^ 48

-- `strip_last c s` is `s` without its last byte, if that is `c`.
unfoldable pub strip_last : ℕ → Bytes → Bytes
strip_last c [] = []
strip_last c (x ∷ []) = if x == c then [] else x ∷ []
strip_last c (x ∷ y ∷ s) = x ∷ strip_last c (y ∷ s)

unfoldable pub trim_crlf : Bytes → Bytes
unfolding strip_last
trim_crlf b = strip_last b'\r' (strip_last b'\n' b)

-- `c` in front of a line that has been read.
abbrev pub onto_line : ℕ → Result (Bytes × Bytes) → Result (Bytes × Bytes)
onto_line c (ok (line, rest)) = ok (c ∷ line, rest)
onto_line c (err e) = err e

-- ReadBytes('\n'): the bytes through the next newline, and what follows them.
unfoldable pub read_line : Bytes → Result (Bytes × Bytes)
read_line [] = err eof
read_line (c ∷ cs) = if c == b'\n' then ok (c ∷ [], cs) else onto_line c (read_line cs)

-- io.ReadFull into a slice of `n` bytes.
unfoldable pub read_full : ℕ → Bytes → Result (Bytes × Bytes)
read_full n input = if ltb (length input) n then err eof else ok (take n input, drop n input)

abbrev pub crlf : Bytes
crlf = b'\r' ∷ b'\n' ∷ []
