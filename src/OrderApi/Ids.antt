-- ===== src/OrderApi/Ids.antt =====
-- newOrderID of services/order-api/main.go: the six bytes that crypto/rand gives are an argument.
use container_patterns.Common.{
  ℕ, ◌+◌, ◌*◌, ◌/◌, ◌%◌, ◌<◌, ◌≡◌, ◌≢◌, refl, ap₂, [], ◌∷◌, ◌++◌, arith, Bytes, codes, All, ltb,
  if◌then◌else◌, length,
}

-- A digit of encoding/hex, `0` to `9` and `a` to `f`.
abbrev pub hex_digit : ℕ → ℕ
hex_digit n = if ltb n 10 then 48 + n else 87 + n

-- hex.EncodeToString
unfoldable pub hex : Bytes → Bytes
hex [] = []
hex (b ∷ bs) = hex_digit (b / 16) ∷ hex_digit (b % 16) ∷ hex bs

unfoldable pub new_order_id : Bytes → Bytes
new_order_id b = codes "ord_" ++ hex b

abbrev pub IsByte : ℕ → Type 0
IsByte b = b < 256

hex_digit-injective : (m n : ℕ) → m < 16 → n < 16 → hex_digit m ≡ hex_digit n → m ≡ n
hex_digit-injective m n h k e = ground arith

byte-digits : (a b : ℕ) → a / 16 ≡ b / 16 → a % 16 ≡ b % 16 → a ≡ b
byte-digits a b e f = omega arith

hex-injective : (a b : Bytes) → All IsByte a → All IsByte b → hex a ≡ hex b → a ≡ b
unfolding hex
hex-injective [] [] h k e = refl
hex-injective [] (y ∷ ys) h k e = cc
hex-injective (x ∷ xs) [] h k e = cc
hex-injective (x ∷ xs) (y ∷ ys) (hx, hxs) (hy, hys) e =
    let high : hex_digit (x / 16) ≡ hex_digit (y / 16) = cc in
    let low : hex_digit (x % 16) ≡ hex_digit (y % 16) = cc in
    let rest : hex xs ≡ hex ys = cc in
    ap₂ ◌∷◌
      (byte-digits x y (hex_digit-injective (x / 16) (y / 16) (omega arith) (omega arith) high)
        (hex_digit-injective (x % 16) (y % 16) (omega arith) (omega arith) low))
      (hex-injective xs ys hxs hys rest)

-- Two orders have one id only if their random bytes are the same, and no id is empty.
pub new_order_id-injective :
    (a b : Bytes) → All IsByte a → All IsByte b → new_order_id a ≡ new_order_id b → a ≡ b
unfolding new_order_id
new_order_id-injective a b h k e = hex-injective a b h k (cc)

pub new_order_id_nonempty : (b : Bytes) → new_order_id b ≢ []
unfolding new_order_id
new_order_id_nonempty b e = cc

pub length-hex : (b : Bytes) → length (hex b) ≡ 2 * length b
unfolding hex
length-hex [] = omega arith
length-hex (b ∷ bs) = omega (arith, length-hex bs)
