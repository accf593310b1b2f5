-- ===== src/Resp/Wire/Lines.antt =====
-- Laws of the shared readers: what is read, and what is left, make up the input.
use container_patterns.Common.{
  ℕ, ◌+◌, ◌<◌, ◌≡◌, refl, sym, ap, ◌∙◌, ◌≢◌, inl, inr, [], ◌∷◌, ◌++◌, arith, Bytes, All, length,
  length-append, take-append-drop, take-length-append, length-drop, drop-length-append, Bool-cases,
  ◌==◌, append_assoc,
}
use container_patterns.Resp.Wire.{
  Result, ok, err, strip_last, trim_crlf, onto_line, read_line, read_full, crlf,
}

strip_last-append : (c : ℕ) (s : Bytes) → strip_last c (s ++ c ∷ []) ≡ s
unfolding strip_last
strip_last-append c [] = ground arith
strip_last-append c (x ∷ []) = ap (◌∷◌ x) (strip_last-append c [])
strip_last-append c (x ∷ y ∷ s) = ap (◌∷◌ x) (strip_last-append c (y ∷ s))

pub trim_crlf_line : (s : Bytes) → trim_crlf (s ++ crlf) ≡ s
unfolding trim_crlf
trim_crlf_line s =
    ap (strip_last b'\r') (
      ap (strip_last b'\n') (sym (append_assoc s (b'\r' ∷ []) (b'\n' ∷ [])))
      ∙ strip_last-append b'\n' (s ++ b'\r' ∷ []))
    ∙ strip_last-append b'\r' s

-- The byte is no newline.
abbrev pub IsInline : ℕ → Type 0
IsInline c = c ≢ b'\n'

pub read_line-append :
    (s rest : Bytes) → All IsInline s → read_line (s ++ (crlf ++ rest)) ≡ ok (s ++ crlf, rest)
unfolding read_line
read_line-append [] rest h = refl
read_line-append (c ∷ s) rest (hc, hs) = ground (arith, read_line-append s rest hs)

-- What a read takes from the input, and that it takes something.
pub record Takes (input taken rest : Bytes) : Type 0 where
  pub splits : input ≡ taken ++ rest
  pub shorter : length rest < length input

onto_line-eq-ok :
    (c : ℕ) (m : Result (Bytes × Bytes)) {line rest : Bytes}
    → onto_line c m ≡ ok (line, rest)
    → (l : Bytes) × (m ≡ ok (l, rest)) × (line ≡ c ∷ l)
onto_line-eq-ok c (ok (l, r)) h = (l, ground arith, ground arith)
onto_line-eq-ok c (err e) h = cc

pub read_line-Takes :
    (input : Bytes) {line rest : Bytes} → read_line input ≡ ok (line, rest) → Takes input line rest
unfolding read_line
read_line-Takes [] h = cc
read_line-Takes (c ∷ cs) {line} {rest} h = elim (Bool-cases (c == b'\n')) [
  | inl newline ↦ ground arith
  | inr other ↦
      let (l, e, f) = onto_line-eq-ok c (read_line cs) (rw other at h) in
      let t = read_line-Takes cs e in
      record { splits = rw f (ap (◌∷◌ c) t.splits); shorter = omega (arith, t.shorter) }
]

pub read_full-append :
    (s rest : Bytes) {n : ℕ} → n ≡ length s → read_full n (s ++ rest) ≡ ok (s, rest)
unfolding read_full
read_full-append s rest {n} e =
    ground (arith, length-append s rest, take-length-append s rest, drop-length-append s rest)

pub read_full-splits :
    (n : ℕ) (input : Bytes) {s rest : Bytes}
    → read_full n input ≡ ok (s, rest)
    → (input ≡ s ++ rest) × (length rest + n ≡ length input)
unfolding read_full
read_full-splits n input h = ground (arith, take-append-drop n input, length-drop n input)
