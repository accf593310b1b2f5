-- ===== src/Environment/Entries.antt =====
-- A list of entries that is written with commas is read back.
use mathlib.Core.Path.{subst}
use mathlib.Core.List.{reverse-cons, reverse-reverse}
use container_patterns.Common.{
  ℕ, ◌≤◌, ◌≡◌, ◌≢◌, refl, sym, ap, ◌∙◌, arith, Bool, true, false, ◌&&◌, ◌||◌, List, [], ◌∷◌, ◌++◌,
  reverse, append-nil, append_assoc, Bytes, leb, ◌==◌, All, All-append,
}
use container_patterns.Resp.Command.Fields.{
  is_space_byte, is_space_pair, is_space_triple, space_width,
}
use container_patterns.Decimal.RoundTrip.{IsDigit, IsNumber}
use container_patterns.Environment.{
  space_width_back, trim_front, trim_space, split_onto, split, entries, keep_entry,
}

-- A visible ASCII character.
abbrev pub IsGraphic : ℕ → Type 0
IsGraphic c = (33 ≤ c) × (c ≤ 126)

-- An entry: visible characters, at least one, and no comma.
abbrev pub IsPlain : ℕ → Type 0
IsPlain c = IsGraphic c × (c ≢ b',')

abbrev pub IsEntry : Bytes → Type 0
IsEntry [] = ⊥
IsEntry (c ∷ cs) = All IsPlain (c ∷ cs)

-- strings.Join with a comma.
abbrev pub join_onto : Bytes → List Bytes → Bytes
join_onto e [] = e
join_onto e (f ∷ fs) = e ++ b',' ∷ join_onto f fs

==_false : (a b : ℕ) → a ≢ b → (a == b) ≡ false
==_false a b h = ground arith

==_self : (a : ℕ) → (a == a) ≡ true
==_self a = ground arith

and_false : (a b : Bool) → b ≡ false → (a && b) ≡ false
and_false true b h = h
and_false false b h = refl

and_and_false : (a b : Bool) → (a && b && false) ≡ false
and_and_false true true = refl
and_and_false true false = refl
and_and_false false b = refl

byte-graphic : (c : ℕ) → IsGraphic c → is_space_byte c ≡ false
byte-graphic c (h, k) = ground arith

pair-graphic : (c d : ℕ) → IsGraphic c → is_space_pair c d ≡ false
pair-graphic c d (h, k) = rw (==_false c 0xc2 (λ e. omega (arith, e))) refl

triple-graphic : (c d e : ℕ) → IsGraphic c → is_space_triple c d e ≡ false
triple-graphic c d e (h, k) =
    rw
      (
        ==_false c 0xe1 (λ e. omega (arith, e)),
        ==_false c 0xe2 (λ e. omega (arith, e)),
        ==_false c 0xe3 (λ e. omega (arith, e)),
      )
      refl

pair_back-graphic : (c d : ℕ) → IsGraphic d → is_space_pair c d ≡ false
pair_back-graphic c d (h, k) =
    and_false (c == 0xc2) (d == 0x85 || d == 0xa0)
      (rw (==_false d 0x85 (λ e. omega (arith, e)), ==_false d 0xa0 (λ e. omega (arith, e))) refl)

triple_back-graphic : (c d e : ℕ) → IsGraphic e → is_space_triple c d e ≡ false
triple_back-graphic c d e (h, k) =
    let above : leb 0x80 e ≡ false = ground arith in
    rw
      (
        ==_false e 0x80 (λ p. omega (arith, p)),
        above,
        ==_false e 0xa8 (λ p. omega (arith, p)),
        ==_false e 0xa9 (λ p. omega (arith, p)),
        ==_false e 0xaf (λ p. omega (arith, p)),
        ==_false e 0x9f (λ p. omega (arith, p)),
        and_and_false (c == 0xe1) (d == 0x9a),
        and_and_false (c == 0xe2) (d == 0x80),
        and_and_false (c == 0xe2) (d == 0x81),
        and_and_false (c == 0xe3) (d == 0x80),
      )
      refl

space_width-graphic : (c : ℕ) (s : Bytes) → IsGraphic c → space_width (c ∷ s) ≡ 0
unfolding space_width
space_width-graphic c [] g = rw (byte-graphic c g) refl
space_width-graphic c (d ∷ []) g = rw (byte-graphic c g, pair-graphic c d g) refl
space_width-graphic c (d ∷ e ∷ s) g =
    rw (byte-graphic c g, pair-graphic c d g, triple-graphic c d e g) refl

space_width_back-graphic : (c : ℕ) (s : Bytes) → IsGraphic c → space_width_back (c ∷ s) ≡ 0
unfolding space_width_back
space_width_back-graphic c [] g = rw (byte-graphic c g) refl
space_width_back-graphic c (d ∷ []) g = rw (byte-graphic c g, pair_back-graphic d c g) refl
space_width_back-graphic c (d ∷ e ∷ s) g =
    rw (byte-graphic c g, pair_back-graphic d c g, triple_back-graphic e d c g) refl

trim_front-graphic :
    (width : Bytes → ℕ) (s : Bytes)
    → ((c : ℕ) (t : Bytes) → IsGraphic c → width (c ∷ t) ≡ 0)
    → All IsGraphic s
    → trim_front width 0 s ≡ s
unfolding trim_front
trim_front-graphic width [] h g = refl
trim_front-graphic width (c ∷ s) h (g, _) = rw (trim_front, h c s g) refl

All-reverse : (P : ℕ → Type 0) (s : Bytes) → All P s → All P (reverse s)
All-reverse P [] h = tt
All-reverse P (c ∷ s) (h, hs) =
    subst (All P) (sym (reverse-cons c s))
      (All-append P (reverse s) (c ∷ []) (All-reverse P s hs) (h, tt))

-- Visible text is not trimmed.
pub trim_space-graphic : (s : Bytes) → All IsGraphic s → trim_space s ≡ s
unfolding trim_space
trim_space-graphic s g =
    rw
      (
        trim_front-graphic space_width s space_width-graphic g,
        trim_front-graphic space_width_back (reverse s) space_width_back-graphic
            (All-reverse IsGraphic s g),
      )
      (reverse-reverse s)

-- The field ends at the separator.
pub split_onto-piece :
    (sep : ℕ) (field e rest : Bytes)
    → All (λ c. c ≢ sep) e
    → split_onto sep field (e ++ sep ∷ rest) ≡ (field ++ e) ∷ split_onto sep [] rest
unfolding split_onto
split_onto-piece sep field [] rest h =
    rw (==_self sep) (ap (λ f. f ∷ split_onto sep [] rest) (sym (append-nil field)))
split_onto-piece sep field (c ∷ e) rest (n, h) = rw (==_false c sep n) (
    split_onto-piece sep (field ++ c ∷ []) e rest h
    ∙ ap (λ f. f ∷ split_onto sep [] rest) (append_assoc field (c ∷ []) e))

split_onto-last :
    (sep : ℕ) (field e : Bytes) → All (λ c. c ≢ sep) e → split_onto sep field e ≡ (field ++ e) ∷ []
unfolding split_onto
split_onto-last sep field [] h = ap (λ f. f ∷ []) (sym (append-nil field))
split_onto-last sep field (c ∷ e) (n, h) =
    rw (==_false c sep n)
      (split_onto-last sep (field ++ c ∷ []) e h ∙ ap (λ f. f ∷ []) (append_assoc field (c ∷ []) e))

no_comma : (e : Bytes) → All IsPlain e → All (λ c. c ≢ b',') e
no_comma [] h = tt
no_comma (c ∷ cs) (h, hs) = (h.1, no_comma cs hs)

abbrev pub AllEntries : Bytes → List Bytes → Type 0
AllEntries e es = IsEntry e × All IsEntry es

plain : (e : Bytes) → IsEntry e → All IsPlain e
plain [] h = absurd h
plain (c ∷ cs) h = h

split-join_onto :
    (e : Bytes) (es : List Bytes) → AllEntries e es → split (join_onto e es) b',' ≡ e ∷ es
unfolding split
split-join_onto e [] (h, _) = split_onto-last b',' [] e (no_comma e (plain e h))
split-join_onto e (f ∷ fs) (h, k) =
    split_onto-piece b',' [] e (join_onto f fs) (no_comma e (plain e h))
    ∙ ap (◌∷◌ e) (split-join_onto f fs k)

plain→graphic : (e : Bytes) → All IsPlain e → All IsGraphic e
plain→graphic [] h = tt
plain→graphic (c ∷ cs) (h, hs) = (h.0, plain→graphic cs hs)

entries-entry : (es : List Bytes) → All IsEntry es → entries es ≡ es
unfolding entries
entries-entry [] h = refl
entries-entry ([] ∷ es) (h, hs) = absurd h
entries-entry ((c ∷ cs) ∷ es) (h, hs) =
    rw (trim_space-graphic (c ∷ cs) (plain→graphic (c ∷ cs) h), entries-entry es hs) refl

pub join_onto-IsGraphic :
    (e : Bytes) (es : List Bytes) → AllEntries e es → All IsGraphic (join_onto e es)
join_onto-IsGraphic e [] (h, _) = plain→graphic e (plain e h)
join_onto-IsGraphic e (f ∷ fs) (h, k) =
    All-append IsGraphic e (b',' ∷ join_onto f fs) (plain→graphic e (plain e h))
      ((omega arith, omega arith), join_onto-IsGraphic f fs k)

-- Entries that are joined by commas are found again.
pub entries-split :
    (e : Bytes) (es : List Bytes) → AllEntries e es → entries (split (join_onto e es) b',') ≡ e ∷ es
entries-split e es h = ap entries (split-join_onto e es h) ∙ entries-entry (e ∷ es) h

keep_entry-nonempty :
    (e : Bytes) (es : List Bytes) → All (λ e. e ≢ []) es → All (λ e. e ≢ []) (keep_entry e es)
keep_entry-nonempty [] es h = h
keep_entry-nonempty (c ∷ cs) es h = (λ p. cc, h)

-- An entry is not empty.
pub entries-nonempty : (es : List Bytes) → All (λ e. e ≢ []) (entries es)
unfolding entries
entries-nonempty [] = tt
entries-nonempty (e ∷ es) = keep_entry-nonempty (trim_space e) (entries es) (entries-nonempty es)

pub join_onto-nonempty : (e : Bytes) (es : List Bytes) → AllEntries e es → join_onto e es ≢ []
join_onto-nonempty [] es (h, _) = absurd h
join_onto-nonempty (c ∷ cs) [] h = λ p. cc
join_onto-nonempty (c ∷ cs) (f ∷ fs) h = λ p. cc

IsDigit-IsGraphic : (s : Bytes) → All IsDigit s → All IsGraphic s
IsDigit-IsGraphic [] h = tt
IsDigit-IsGraphic (c ∷ cs) ((h, k), hs) = ((omega arith, omega arith), IsDigit-IsGraphic cs hs)

-- A number in decimal is not trimmed.
pub trim_space-number : (s : Bytes) → IsNumber s → trim_space s ≡ s
trim_space-number [] h = absurd h
trim_space-number (c ∷ cs) h = trim_space-graphic (c ∷ cs) (IsDigit-IsGraphic (c ∷ cs) h)
