-- ===== src/Environment.antt =====
-- What the services' loadConfig functions share: os.Getenv with a default, and of Go's standard library
-- strings.TrimSpace, strings.Split and the arithmetic of time.Duration. The environment is a function
-- that gives the empty text for a variable that is not set, as os.Getenv does.
pub mod Entries
use container_patterns.Common.{
  ℕ, zero, suc, ◌+◌, ◌-◌, ◌*◌, ◌%◌, ◌^◌, Bool, ◌&&◌, Option, none, some, List, [], ◌∷◌, ◌++◌,
  reverse, Bytes, ltb, ◌==◌, if◌then◌else◌,
}
use container_patterns.Decimal.{ℤ, pos, negsuc}
use container_patterns.Resp.Command.Fields.{
  is_space_byte, is_space_pair, is_space_triple, space_width,
}

-- `value` if it is not empty, the default otherwise.
abbrev pub or_default : Bytes → Bytes → Bytes
or_default def [] = def
or_default def (c ∷ cs) = c ∷ cs

unfoldable pub getenv : (Bytes → Bytes) → Bytes → Bytes → Bytes
getenv env key def = or_default def (env key)

-- How many bytes the white space at the end takes, on the text backwards.
unfoldable pub space_width_back : Bytes → ℕ
space_width_back [] = 0
space_width_back (e ∷ []) = if is_space_byte e then 1 else 0
space_width_back (e ∷ d ∷ []) = if is_space_byte e then 1 else if is_space_pair d e then 2 else 0
space_width_back (e ∷ d ∷ c ∷ s) =
    if is_space_byte e
    then 1
    else if is_space_pair d e
    then 2
    else if is_space_triple c d e
    then 3
    else 0

-- The text without the white space in front; `skip` bytes of it are still to pass.
unfoldable pub trim_front : (Bytes → ℕ) → ℕ → Bytes → Bytes
trim_front width skip [] = []
trim_front width (suc skip) (c ∷ s) = trim_front width skip s
trim_front width zero (c ∷ s) = elim (width (c ∷ s)) [ zero ↦ c ∷ s | suc w ↦ trim_front width w s ]

-- strings.TrimSpace.
unfoldable pub trim_space : Bytes → Bytes
unfolding trim_front space_width space_width_back
trim_space s = reverse (trim_front space_width_back 0 (reverse (trim_front space_width 0 s)))

-- strings.Split on one byte; `field` is what the present field holds.
unfoldable pub split_onto : ℕ → Bytes → Bytes → List Bytes
split_onto sep field [] = field ∷ []
split_onto sep field (c ∷ s) =
    let more = split_onto sep (field ++ c ∷ []) s in
    let next = split_onto sep [] s in if c == sep then field ∷ next else more

unfoldable pub split : Bytes → ℕ → List Bytes
unfolding split_onto
split s sep = split_onto sep [] s

abbrev pub keep_entry : Bytes → List Bytes → List Bytes
keep_entry [] out = out
keep_entry (c ∷ cs) out = (c ∷ cs) ∷ out

-- The loop over the fields: each is trimmed, and kept if it is not empty.
unfoldable pub entries : List Bytes → List Bytes
unfolding trim_space
entries [] = []
entries (e ∷ es) = keep_entry (trim_space e) (entries es)

-- A Go `int` times a number of nanoseconds: a time.Duration, as its two's complement.
unfoldable pub duration : ℤ → ℕ → ℕ
duration (pos n) unit = n * unit % 2 ^ 64
duration (negsuc n) unit = (2 ^ 64 - (n + 1) * unit % 2 ^ 64) % 2 ^ 64

-- time.NewTicker: `none` is its panic, at an interval that is not positive.
unfoldable pub new_ticker : ℕ → Option ℕ
new_ticker d = if ltb 0 d && ltb d (2 ^ 63) then some d else none
