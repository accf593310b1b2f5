-- ===== src/Ambassador/Crc32.antt =====
-- hash/crc32's ChecksumIEEE, bit by bit.
use Prim.Native.Nat.{bit_xor}
use container_patterns.Common.{
  ℕ, zero, suc, ◌/◌, ◌%◌, ◌≡◌, refl, [], ◌∷◌, Bytes, codes, ◌==◌, if◌then◌else◌,
}

-- `n` bits of one byte, shifted out at the low end.
unfoldable pub shift_bits : ℕ → ℕ → ℕ
shift_bits zero crc = crc
shift_bits (suc n) crc =
    shift_bits n (if crc % 2 == 1 then bit_xor (crc / 2) 0xedb88320 else crc / 2)

unfoldable pub crc_from : ℕ → Bytes → ℕ
unfolding shift_bits
crc_from crc [] = crc
crc_from crc (b ∷ bs) = crc_from (shift_bits 8 (bit_xor crc b)) bs

unfoldable pub checksum : Bytes → ℕ
unfolding crc_from
checksum key = bit_xor (crc_from 0xffffffff key) 0xffffffff

-- The check value of the standard.
checksum_check : checksum (codes "123456789") ≡ 0xcbf43926
unfolding checksum
checksum_check = refl
