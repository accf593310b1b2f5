-- ===== src/Resp/Reply/Total.antt =====
-- The fuel of `read_one_reply` never runs out.
use container_patterns.Common.{
  ℕ, zero, suc, ◌<◌, ◌≡◌, ◌≢◌, inl, inr, Option, none, some, [], ◌∷◌, arith, Bytes, length,
  Bool-cases, ◌==◌,
}
use container_patterns.Decimal.{ℤ, pos, negsuc, atoi}
use container_patterns.Resp.Wire.{Result, ok, err, out_of_fuel, bind-eq-err, read_line, onto_line}
use container_patterns.Resp.Reply.{
  State, read_line_raw, copy_payload, read_replies, read_bulk, read_array, read_body, read_reply,
  read_one_reply,
}
use container_patterns.Resp.Reply.Verbatim.{
  Moved-length, Moves, read_line_raw-Moved, read_reply-Moved,
}

-- `read` does not run out of fuel on an input shorter than `k`.
abbrev Enough : (State → Result State) → ℕ → Type 0
Enough read k = (s : State) → length s.1 < k → read s ≢ err out_of_fuel

read_line-fuel : (input : Bytes) → read_line input ≢ err out_of_fuel
unfolding read_line
read_line-fuel [] h = cc
read_line-fuel (c ∷ cs) h = elim (Bool-cases (c == b'\n')) [
  | inl newline ↦ cc (rw newline at h)
  | inr other ↦ passed_on (read_line cs) (read_line-fuel cs) (rw other at h)
]
  where
    passed_on :
        (m : Result (Bytes × Bytes)) → m ≢ err out_of_fuel → onto_line c m ≡ err out_of_fuel → ⊥
    passed_on (ok a) n e = cc
    passed_on (err d) n e = n (cc)

read_line_raw-fuel : (s : State) → read_line_raw s ≢ err out_of_fuel
unfolding read_line_raw
read_line_raw-fuel (buf, input) h = elim (bind-eq-err (read_line input) _ h) [
  | inl first ↦ read_line-fuel input first
  | inr (a, first, more) ↦ cc
]

copy_payload-fuel : (n : ℕ) (s : State) → copy_payload n s ≢ err out_of_fuel
unfolding copy_payload
copy_payload-fuel n (buf, input) h = ground arith

module _ (read : State → Result State) (k : ℕ) (m : Moves read) (enough : Enough read k) where
  read_replies-Enough : (n : ℕ) → Enough (read_replies read n) k
  unfolding read_replies
  read_replies-Enough zero s h e = cc
  read_replies-Enough (suc n) s h e = elim (bind-eq-err (read s) _ e) [
    | inl one ↦ enough s h one
    | inr (t, one, more) ↦ read_replies-Enough n t (omega (arith, Moved-length (m s t one))) more
  ]

  read_array-Enough : (o : Option ℤ) → Enough (read_array read o) k
  read_array-Enough none s h e = cc
  read_array-Enough (some (negsuc n)) s h e = cc
  read_array-Enough (some (pos n)) s h e = read_replies-Enough n s h e

  read_bulk-Enough : (o : Option ℤ) → Enough (read_bulk o) k
  read_bulk-Enough none s h e = cc
  read_bulk-Enough (some (negsuc n)) s h e = cc
  read_bulk-Enough (some (pos n)) s h e = copy_payload-fuel n s e

  read_body-Enough : (line : Bytes) → Enough (read_body read line) k
  unfolding read_body
  read_body-Enough [] s h e = cc
  read_body-Enough (c ∷ line) s h e =
      ground (arith, read_bulk-Enough (atoi line) s h, read_array-Enough (atoi line) s h)

read_reply-Enough : (fuel : ℕ) → Enough (read_reply fuel) fuel
unfolding read_reply
read_reply-Enough zero s h e = elim h [ ]
read_reply-Enough (suc fuel) s h e = elim (bind-eq-err (read_line_raw s) _ e) [
  | inl first ↦ read_line_raw-fuel s first
  | inr ((line, t), first, body) ↦
      read_body-Enough (read_reply fuel) fuel (read_reply-Moved fuel) (read_reply-Enough fuel) line
        t (omega (arith, (read_line_raw-Moved s first).1)) body
]

-- readReply always comes to an end: on every input it reads a reply or reports an error of its own,
-- for nested replies never go deeper than the input is long.
pub read_one_reply_total : (input : Bytes) → read_one_reply input ≢ err out_of_fuel
unfolding read_one_reply
read_one_reply_total input = read_reply-Enough (suc (length input)) ([], input) (omega arith)
