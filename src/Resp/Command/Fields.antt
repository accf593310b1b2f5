-- ===== src/Resp/Command/Fields.antt =====
-- bytes.Fields, which splits an inline command round its white space. The text is UTF-8, so a space
-- beyond ASCII is a sequence of two or three bytes; its first byte starts no other character.
use container_patterns.Common.{
  ℕ, zero, suc, Bool, ◌||◌, ◌&&◌, List, [], ◌∷◌, ◌++◌, Bytes, leb, ◌==◌, if◌then◌else◌,
}

-- '\t', '\n', '\v', '\f', '\r' and ' '.
abbrev pub is_space_byte : ℕ → Bool
is_space_byte c = (leb 9 c && leb c 13) || c == b' '

-- U+0085 and U+00A0.
abbrev pub is_space_pair : ℕ → ℕ → Bool
is_space_pair c d = c == 0xc2 && (d == 0x85 || d == 0xa0)

-- U+1680, U+2000 to U+200A, U+2028, U+2029, U+202F, U+205F and U+3000.
abbrev pub is_space_triple : ℕ → ℕ → ℕ → Bool
is_space_triple c d e =
    (c == 0xe1 && d == 0x9a && e == 0x80)
    || (c == 0xe2
        && d == 0x80
        && ((leb 0x80 e && leb e 0x8a) || e == 0xa8 || e == 0xa9 || e == 0xaf))
    || (c == 0xe2 && d == 0x81 && e == 0x9f)
    || (c == 0xe3 && d == 0x80 && e == 0x80)

-- How many bytes the white space at the front takes: 0 if there is none.
unfoldable pub space_width : Bytes → ℕ
space_width [] = 0
space_width (c ∷ []) = if is_space_byte c then 1 else 0
space_width (c ∷ d ∷ []) = if is_space_byte c then 1 else if is_space_pair c d then 2 else 0
space_width (c ∷ d ∷ e ∷ s) =
    if is_space_byte c
    then 1
    else if is_space_pair c d
    then 2
    else if is_space_triple c d e
    then 3
    else 0

-- The field read so far, if it has a byte.
abbrev pub flush : Bytes → List Bytes → List Bytes
flush [] out = out
flush (c ∷ cs) out = (c ∷ cs) ∷ out

-- `skip` bytes of a space are still to pass; `field` is what the present field holds.
unfoldable pub split_fields : ℕ → Bytes → Bytes → List Bytes
unfolding space_width
split_fields skip field [] = flush field []
split_fields (suc skip) field (c ∷ s) = split_fields skip field s
split_fields zero field (c ∷ s) = elim (space_width (c ∷ s)) [
  | zero ↦ split_fields zero (field ++ c ∷ []) s
  | suc w ↦ flush field (split_fields w [] s)
]

unfoldable pub fields : Bytes → List Bytes
unfolding split_fields
fields s = split_fields zero [] s
