-- ===== src/Decimal.antt =====
-- Go's strconv.Atoi and the `%d` verb on a length, as the services use them: 64-bit integers in
-- decimal.
pub mod RoundTrip
use container_patterns.Common.{
  ℕ, zero, suc, ◌+◌, ◌-◌, ◌*◌, ◌/◌, ◌%◌, ◌^◌, Bool, ◌&&◌, Option, none, some, [], ◌∷◌, Bytes, ltb,
  leb, ◌==◌, if◌then◌else◌,
}

-- A Go `int`: `negsuc n` is -(n + 1).
pub data ℤ : Type 0 where
  pos : ℕ → ℤ
  negsuc : ℕ → ℤ

abbrev pub is_digit : ℕ → Bool
is_digit c = leb b'0' c && leb c b'9'

-- The number that digits spell behind `n`.
unfoldable pub scan_digits : ℕ → Bytes → Option ℕ
scan_digits n [] = some n
scan_digits n (c ∷ cs) = if is_digit c then scan_digits (n * 10 + (c - b'0')) cs else none

unfoldable pub scan_number : Bytes → Option ℕ
scan_number [] = none
scan_number (c ∷ cs) = scan_digits 0 (c ∷ cs)

-- Out of the range of an int64 is an error too.
abbrev pub to_int : Bool → Option ℕ → Option ℤ
to_int negative none = none
to_int negative (some n) =
    if negative
    then (if n == 0 then some (pos 0) else if ltb (2 ^ 63) n then none else some (negsuc (n - 1)))
    else (if ltb n (2 ^ 63) then some (pos n) else none)

unfoldable pub atoi : Bytes → Option ℤ
unfolding scan_number scan_digits
atoi [] = none
atoi (c ∷ cs) =
    if c == b'-'
    then to_int Bool.true (scan_number cs)
    else if c == b'+'
    then to_int Bool.false (scan_number cs)
    else to_int Bool.false (scan_number (c ∷ cs))

-- The digits of `n`, written in front of `out`. The fuel `n + 1` is enough: each round divides by 10.
unfoldable pub digits_onto : ℕ → ℕ → Bytes → Bytes
digits_onto zero n out = out
digits_onto (suc f) n out =
    let more = digits_onto f (n / 10) ((b'0' + n % 10) ∷ out) in
    if ltb n 10 then (b'0' + n) ∷ out else more

-- `%d` of a number that is not negative.
unfoldable pub format_int : ℕ → Bytes
unfolding digits_onto
format_int n = digits_onto (suc n) n []
