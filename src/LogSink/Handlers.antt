-- ===== src/LogSink/Handlers.antt =====
-- The handlers of services/log-sink/main.go: handlePush and handleQuery, with the capacity check of
-- main. JSON decoding is a parameter, `decode`: encoding/json takes a body to the streams of the
-- push request, or refuses it.
pub mod Laws
use container_patterns.Common.{
  ℕ, zero, suc, ◌+◌, ◌≡◌, Bool, true, false, ◌||◌, ◌&&◌, Option, none, some, List, [], ◌∷◌, ◌++◌,
  Bytes, take, length, get_elem?, ltb, leb, ◌==◌, bytes_eq, if◌then◌else◌,
}
use container_patterns.LogSink.Ring.{Record, Ring, new_ring, add, snapshot}

pub data Method : Type 0 where
  post : Method
  other_method : Method

-- One element of `pushRequest.Streams`.
pub record LogStream : Type 0 where
  pub stream : List (Bytes × Bytes)
  pub values : List (List Bytes)

-- 8 << 20
abbrev pub max_body_size : ℕ
max_body_size = 8388608

-- The `switch` on a value's length: no record for an empty value, a line alone, or both.
unfoldable pub record_of_value : List (Bytes × Bytes) → List Bytes → Option Record
record_of_value labels [] = none
record_of_value labels (line ∷ []) = some (record { ts = []; labels = labels; line = line })
record_of_value labels (ts ∷ line ∷ _) = some (record { ts = ts; labels = labels; line = line })

-- `continue`, or `s.ring.add(…)` and `stored++`: the ring, and the count of lines stored.
abbrev pub store : Option Record → Ring × ℕ → Ring × ℕ
store none s = s
store (some rec) (r, stored) = (add r rec, stored + 1)

-- The inner loop of handlePush.
unfoldable pub push_values : Ring × ℕ → List (Bytes × Bytes) → List (List Bytes) → Ring × ℕ
push_values s labels [] = s
push_values s labels (v ∷ vs) = push_values (store (record_of_value labels v) s) labels vs

-- The outer loop.
unfoldable pub push_streams : Ring × ℕ → List LogStream → Ring × ℕ
unfolding push_values record_of_value
push_streams s [] = s
push_streams s (st ∷ sts) = push_streams (push_values s st.stream st.values) sts

-- What handlePush sends back, and what it logs on success.
pub data PushReply : Type 0 where
  method_not_allowed : PushReply
  bad_request : PushReply
  no_content : ℕ → ℕ → PushReply

-- The rest of handlePush, once the body is decoded.
abbrev push_decoded : Option (List LogStream) → Ring → PushReply × Ring
push_decoded none r = (bad_request, r)
push_decoded (some sts) r =
    let (r', stored) = push_streams (r, 0) sts in (no_content (length sts) stored, r')

module _ (decode : Bytes → Option (List LogStream)) where
  -- MaxBytesReader hands the decoder at most `max_body_size` bytes.
  unfoldable pub handle_push : Method → Bytes → Ring → PushReply × Ring
  handle_push other_method body r = (method_not_allowed, r)
  handle_push post body r = push_decoded (decode (take max_body_size body)) r

-- strings.HasPrefix
unfoldable pub has_prefix : Bytes → Bytes → Bool
has_prefix s [] = true
has_prefix [] (q ∷ qs) = false
has_prefix (c ∷ cs) (q ∷ qs) = c == q && has_prefix cs qs

-- strings.Contains
unfoldable pub contains : Bytes → Bytes → Bool
unfolding has_prefix
contains [] q = has_prefix [] q
contains (c ∷ cs) q = has_prefix (c ∷ cs) q || contains cs q

abbrev pub matches : Bytes → Record → Bool
matches q rec = bytes_eq q [] || contains rec.line q

-- `for i := len(all) - 1; i >= 0; i--`, with `n` the number of indices left.
abbrev pub found_at : Bytes → Option Record → List Record → List Record
found_at q none found = found
found_at q (some rec) found = if matches q rec then found ++ rec ∷ [] else found

unfoldable pub scan_down : Bytes → List Record → ℕ → List Record → List Record
scan_down q all zero found = found
scan_down q all (suc i) found = scan_down q all i (found_at q (get_elem? all i) found)

unfoldable pub handle_query : Bytes → Ring → List Record
unfolding scan_down
handle_query q r = let all = snapshot r in scan_down q all (length all) []

-- `RING_CAP`: unset, not a positive integer, or a capacity; `none` is log.Fatalf.
unfoldable pub start_ring : Option (Option ℕ) → Option Ring
start_ring none = some (new_ring 5000)
start_ring (some none) = none
start_ring (some (some n)) = if leb n 0 then none else some (new_ring n)
