-- ===== src/Decimal/RoundTrip.antt =====
-- What `%d` prints, Atoi reads.
use container_patterns.Common.{
  ℕ, zero, suc, ◌+◌, ◌/◌, ◌%◌, ◌^◌, ◌<◌, ◌≤◌, ◌≡◌, refl, ◌∙◌, inl, inr, false, some, [], ◌∷◌, arith,
  Bytes, All, Bool-cases, ltb, ltb→lt, lt→ltb,
}
use container_patterns.Decimal.{
  pos, scan_digits, scan_number, to_int, atoi, digits_onto, format_int,
}

-- The byte is one of '0' to '9'.
abbrev pub IsDigit : ℕ → Type 0
IsDigit c = (b'0' ≤ c) × (c ≤ b'9')

-- A number in decimal: a digit, and more of them.
abbrev pub IsNumber : Bytes → Type 0
IsNumber [] = ⊥
IsNumber (c ∷ cs) = IsDigit c × All IsDigit cs

scan-digits_onto :
    (f n : ℕ) (out : Bytes) → n < f → scan_digits 0 (digits_onto f n out) ≡ scan_digits n out
unfolding digits_onto scan_digits
scan-digits_onto zero n out h = elim h [ ]
scan-digits_onto (suc f) n out h =
    ground (arith, scan-digits_onto f (n / 10) ((b'0' + n % 10) ∷ out))

digits_onto-IsNumber :
    (f n : ℕ) (out : Bytes) → n < f → All IsDigit out → IsNumber (digits_onto f n out)
unfolding digits_onto
digits_onto-IsNumber zero n out h all = elim h [ ]
digits_onto-IsNumber (suc f) n out h all = elim (Bool-cases (ltb n 10)) [
  | inl last ↦ rw last ((omega (arith, ltb→lt n 10 last)), all)
  | inr more ↦
      rw more
        (digits_onto-IsNumber f (n / 10) ((b'0' + n % 10) ∷ out) (ground arith) (omega arith, all))
]

pub format_int-IsNumber : (n : ℕ) → IsNumber (format_int n)
unfolding format_int
format_int-IsNumber n = digits_onto-IsNumber (suc n) n [] (omega arith) tt

atoi-of_IsNumber : (s : Bytes) → IsNumber s → atoi s ≡ to_int false (scan_digits 0 s)
unfolding atoi scan_number
atoi-of_IsNumber [] h = absurd h
atoi-of_IsNumber (c ∷ cs) h = ground arith

-- Atoi reads back every length that `%d` prints.
pub atoi-format_int : (n : ℕ) → n < 2 ^ 63 → atoi (format_int n) ≡ some (pos n)
unfolding scan_digits
atoi-format_int n h =
    atoi-of_IsNumber (format_int n) (format_int-IsNumber n)
    ∙ unfold format_int in
      rw (scan-digits_onto (suc n) n [] (omega arith), lt→ltb n (2 ^ 63) h, scan_digits) refl
