-- ===== src/Resp/Reply/Verbatim.antt =====
-- A reply is relayed byte for byte: what the buffer gains is what the input loses.
use mathlib.Core.Path.{subst}
use container_patterns.Common.{
  ℕ, zero, suc, ◌+◌, ◌^◌, ◌<◌, ◌≤◌, ◌≡◌, refl, sym, ap, ◌∙◌, inl, inr, ◌||◌, Option, none, some, [],
  ◌∷◌, ◌++◌, arith, Bytes, length, length-append, take, drop, take-append-drop, append_assoc,
  append-nil, Bool-cases, ltb, leb, ◌==◌,
}
use container_patterns.Decimal.{ℤ, pos, negsuc, atoi}
use container_patterns.Resp.Wire.{Result, ok, bind-eq-ok, ok-injective, read_line}
use container_patterns.Resp.Wire.Lines.{read_line-Takes}
use container_patterns.Resp.Reply.{
  State, read_line_raw, copy_payload, read_replies, read_bulk, read_array, read_body, read_reply,
  read_one_reply,
}

-- The bytes `taken` went from the front of the input to the end of the buffer.
pub record Moved (s s' : State) : Type 0 where
  pub taken : Bytes
  pub buffer : s'.0 ≡ s.0 ++ taken
  pub input : s.1 ≡ taken ++ s'.1

Moved-refl : (s : State) → Moved s s
Moved-refl s = record { taken = []; buffer = sym (append-nil s.0); input = refl }

Moved-trans : {s t u : State} → Moved s t → Moved t u → Moved s u
Moved-trans {s} {t} {u} p q = record {
  taken = p.taken ++ q.taken;
  buffer = q.buffer ∙ ap (λ b. b ++ q.taken) p.buffer ∙ append_assoc s.0 p.taken q.taken;
  input = p.input ∙ ap (λ i. p.taken ++ i) q.input ∙ sym (append_assoc p.taken q.taken u.1);
}

pub Moved-length : {s s' : State} → Moved s s' → length s'.1 ≤ length s.1
Moved-length {s} {s'} m = omega (arith, ap length m.input, length-append m.taken s'.1)

Moved-of :
    (buf taken rest : Bytes) {input : Bytes} {s' : State}
    → (buf ++ taken, rest) ≡ s'
    → input ≡ taken ++ rest
    → Moved (buf, input) s'
Moved-of buf taken rest e f = record {
  taken = taken;
  buffer = sym (ap (λ p. p.0) e);
  input = f ∙ ap (λ p. taken ++ p.1) e;
}

pub read_line_raw-Moved :
    (s : State) {line : Bytes} {s' : State}
    → read_line_raw s ≡ ok (line, s')
    → Moved s s' × (length s'.1 < length s.1)
unfolding read_line_raw
read_line_raw-Moved (buf, input) {line} {s'} h =
    let ((raw, rest), first, h₁) = bind-eq-ok (read_line input) _ h in
    let t = read_line-Takes input first in
    let e : (buf ++ raw, rest) ≡ s' = ap (λ p. p.1) (ok-injective h₁) in
    (Moved-of buf raw rest e t.splits, rw (← ap (λ p. p.1) e) t.shorter)

copy_payload-Moved : (n : ℕ) (s : State) {s' : State} → copy_payload n s ≡ ok s' → Moved s s'
unfolding copy_payload
copy_payload-Moved n (buf, input) {s'} h = elim (Bool-cases (leb (2 ^ 63) (n + 2))) [
  | inl wrapped ↦
      subst (Moved (buf, input)) (ok-injective (rw wrapped at h)) (Moved-refl (buf, input))
  | inr small ↦ elim (Bool-cases (ltb (length input) (n + 2))) [
    | inl short ↦ cc (rw (small, short) at h)
    | inr enough ↦
        Moved-of buf (take (n + 2) input) (drop (n + 2) input)
          (ok-injective (rw (small, enough) at h)) (sym (take-append-drop (n + 2) input))
  ]
]

-- What every call of `read` does.
abbrev pub Moves : (State → Result State) → Type 0
Moves read = (s s' : State) → read s ≡ ok s' → Moved s s'

read_replies-Moved :
    (read : State → Result State) → Moves read → (n : ℕ) → Moves (read_replies read n)
unfolding read_replies
read_replies-Moved read m zero s s' h = subst (Moved s) (ok-injective h) (Moved-refl s)
read_replies-Moved read m (suc n) s s' h =
    let (t, one, more) = bind-eq-ok (read s) _ h in
    Moved-trans (m s t one) (read_replies-Moved read m n t s' more)

read_bulk-Moved : (o : Option ℤ) → Moves (read_bulk o)
read_bulk-Moved none s s' h = cc
read_bulk-Moved (some (negsuc n)) s s' h = subst (Moved s) (ok-injective h) (Moved-refl s)
read_bulk-Moved (some (pos n)) s s' h = copy_payload-Moved n s h

read_array-Moved :
    (read : State → Result State) → Moves read → (o : Option ℤ) → Moves (read_array read o)
read_array-Moved read m none s s' h = cc
read_array-Moved read m (some (negsuc n)) s s' h = subst (Moved s) (ok-injective h) (Moved-refl s)
read_array-Moved read m (some (pos n)) s s' h = read_replies-Moved read m n s s' h

read_body-Moved :
    (read : State → Result State) → Moves read → (line : Bytes) → Moves (read_body read line)
unfolding read_body
read_body-Moved read m [] s s' h = cc
read_body-Moved read m (c ∷ line) s s' h =
    elim (Bool-cases (c == b'+' || (c == b'-' || c == b':'))) [
      | inl simple ↦ subst (Moved s) (ok-injective (rw simple at h)) (Moved-refl s)
      | inr other ↦ elim (Bool-cases (c == b'$')) [
        | inl bulk ↦ read_bulk-Moved (atoi line) s s' (rw (other, bulk) at h)
        | inr not_bulk ↦ elim (Bool-cases (c == b'*')) [
          | inl array ↦ read_array-Moved read m (atoi line) s s' (rw (other, not_bulk, array) at h)
          | inr unknown ↦ cc (rw (other, not_bulk, unknown) at h)
        ]
      ]
    ]

pub read_reply-Moved : (fuel : ℕ) → Moves (read_reply fuel)
unfolding read_reply
read_reply-Moved zero s s' h = cc
read_reply-Moved (suc fuel) s s' h =
    let ((line, t), first, body) = bind-eq-ok (read_line_raw s) _ h in
    Moved-trans (read_line_raw-Moved s first).0
      (read_body-Moved (read_reply fuel) (read_reply-Moved fuel) line t s' body)

-- Whatever a backend sends, a reply that is read without an error is the exact prefix of the input
-- that the reader has passed: nothing is dropped, changed, or read beyond the reply and lost.
pub read_one_reply_verbatim :
    (input : Bytes) {reply rest : Bytes}
    → read_one_reply input ≡ ok (reply, rest)
    → input ≡ reply ++ rest
unfolding read_one_reply
read_one_reply_verbatim input {reply} {rest} h =
    let m = read_reply-Moved (suc (length input)) ([], input) (reply, rest) h in
    m.input ∙ ap (λ b. b ++ rest) (sym m.buffer)
