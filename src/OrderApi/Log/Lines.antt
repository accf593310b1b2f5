-- ===== src/OrderApi/Log/Lines.antt =====
-- What a reader of access.log finds.
use container_patterns.Common.{
  ◌+◌, ◌%◌, ◌^◌, ◌≡◌, ◌≢◌, refl, sym, ap, ◌∙◌, arith, Option, some, List, [], ◌∷◌, ◌++◌, append-nil,
  append_assoc, map, Bytes, All, length,
}
use container_patterns.Environment.{split, split_onto}
use container_patterns.Environment.Entries.{split_onto-piece}
use container_patterns.OrderApi.Stats.{Stats, new_stats, next, record_http}
use container_patterns.OrderApi.Log.{
  LogLine, Logger, Request, access_line, appended, access, finish_request,
}

-- The files after a number of requests, one after the other.
abbrev pub finish_all : (LogLine → Option Bytes) → List Request → Stats × Logger → Stats × Logger
finish_all marshal [] s = s
finish_all marshal (r ∷ rs) s = finish_all marshal rs (finish_request marshal r s)

-- JSON on one line: the bytes hold no newline.
abbrev pub IsLine : Bytes → Type 0
IsLine b = All (λ c. c ≢ b'\n') b

-- The bytes of lines, each with its newline.
abbrev pub lines_of : List Bytes → Bytes
lines_of [] = []
lines_of (b ∷ bs) = (b ++ b'\n' ∷ []) ++ lines_of bs

abbrev pub no_files : Logger
no_files = record { access_file = []; app_file = []; mirror = [] }

pub split-lines_of : (bs : List Bytes) → All IsLine bs → split (lines_of bs) b'\n' ≡ bs ++ [] ∷ []
unfolding split split_onto
split-lines_of [] h = refl
split-lines_of (b ∷ bs) (h, hs) =
    ap (λ f. split_onto b'\n' [] f) (append_assoc b (b'\n' ∷ []) (lines_of bs))
    ∙ split_onto-piece b'\n' [] b (lines_of bs) h
    ∙ ap (◌∷◌ b) (split-lines_of bs hs)

module _ (marshal : LogLine → Option Bytes) (json : LogLine → Bytes)
    (marshals : (l : LogLine) → marshal l ≡ some (json l)) where
  access_file-finish_all :
      (rs : List Request) (s : Stats) (l : Logger)
      → (finish_all marshal rs (s, l)).1.access_file
        ≡ l.access_file ++ lines_of (map (λ r. json (access_line r)) rs)
  unfolding finish_request access
  access_file-finish_all [] s l = sym (append-nil l.access_file)
  access_file-finish_all (r ∷ rs) s l =
      let file = ap (appended l.access_file) (marshals (access_line r)) in
      access_file-finish_all rs (record_http r.status r.latency_us s) (access marshal r l)
      ∙ ap (λ f. f ++ lines_of (map (λ q. json (access_line q)) rs)) file
      ∙ append_assoc l.access_file (json (access_line r) ++ b'\n' ∷ [])
          (lines_of (map (λ q. json (access_line q)) rs))

  lat_count-finish_all :
      (rs : List Request) (s : Stats) (l : Logger)
      → (finish_all marshal rs (s, l)).0.lat_count % 2 ^ 64 ≡ (s.lat_count + length rs) % 2 ^ 64
  unfolding finish_request record_http next
  lat_count-finish_all [] s l = omega arith
  lat_count-finish_all (r ∷ rs) s l =
      let rest =
        lat_count-finish_all rs (record_http r.status r.latency_us s) (access marshal r l) in
      omega (arith, rest)

  json_lines :
      (rs : List Request)
      → ((l : LogLine) → IsLine (json l))
      → All IsLine (map (λ q. json (access_line q)) rs)
  json_lines [] h = tt
  json_lines (r ∷ rs) h = (h (access_line r), json_lines rs h)

  -- From empty files and new counters on, if each line's JSON is on one line, as encoding/json writes it:
  -- after any requests, splitting access.log at its newlines gives the JSON of each request's line, in
  -- the order in which they ended, and an empty rest; and the counters' lat_count is the number of
  -- these lines, in 64 bits.
  pub access_log_lines :
      ((l : LogLine) → IsLine (json l))
      → (rs : List Request)
      → let (s, l) = finish_all marshal rs (new_stats, no_files) in
        (split l.access_file b'\n' ≡ map (λ r. json (access_line r)) rs ++ [] ∷ [])
        × (s.lat_count % 2 ^ 64 ≡ length rs % 2 ^ 64)
  unfolding split new_stats
  access_log_lines single rs = (
    ap (λ f. split f b'\n') (access_file-finish_all rs new_stats no_files)
        ∙ split-lines_of (map (λ r. json (access_line r)) rs) (json_lines rs single),
    omega (arith, lat_count-finish_all rs new_stats no_files),
  )
