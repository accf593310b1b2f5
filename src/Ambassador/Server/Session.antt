-- ===== src/Ambassador/Server/Session.antt =====
-- A connection ends, and its output is the replies.
use container_patterns.Common.{
  ℕ, zero, suc, ◌-◌, ◌<◌, ◌≤◌, ◌≡◌, ◌≢◌, refl, sym, ap, ◌∙◌, inl, inr, Bool, true, false, Option,
  none, some, List, [], ◌∷◌, ◌++◌, arith, Bytes, take, drop, take-append-drop, length, leb,
  Bool-cases, append_assoc, append-nil,
}
use container_patterns.Resp.Wire.{
  ReadError, eof, protocol, reply_type, panic, out_of_fuel, Result, ok, err,
}
use container_patterns.Resp.Command.{read_command}
use container_patterns.Resp.Command.Progress.{read_command-shorter}
use container_patterns.Ambassador.Pool.{Net}
use container_patterns.Ambassador.Dispatch.{Server, Answer, dispatch}
use container_patterns.Ambassador.Server.{
  Out, buffer_size, no_output, write_rest, write_onto, write, flush, dropped, quitted, no_fuel,
  replied, after_read, handle_conn, serve_conn, Ended,
}

-- All that has been written.
abbrev pub output : Out → Bytes
output o = o.sent ++ o.pending

write_rest-output : (done p : Bytes) → output (write_rest done p) ≡ done ++ p
write_rest-output done p = elim (Bool-cases (leb (length p) buffer_size)) [
  | inl fits ↦ rw fits refl
  | inr long ↦ rw long (append-nil (done ++ p))
]

write_onto-output :
    (p done pending : Bytes) → output (write_onto p done pending) ≡ (done ++ pending) ++ p
write_onto-output p done [] = write_rest-output done p ∙ ap (λ d. d ++ p) (sym (append-nil done))
write_onto-output p done (c ∷ cs) =
    let room = buffer_size - length (c ∷ cs) in
    elim (Bool-cases (leb (length p) room)) [
      | inl fits ↦ rw fits (sym (append_assoc done (c ∷ cs) p))
      | inr long ↦ rw long (
          write_rest-output (done ++ ((c ∷ cs) ++ take room p)) (drop room p)
          ∙ split done (c ∷ cs) (take room p) (drop room p)
          ∙ ap (λ t. (done ++ (c ∷ cs)) ++ t) (take-append-drop room p))
    ]
  where
    split : (a b s t : Bytes) → (a ++ (b ++ s)) ++ t ≡ (a ++ b) ++ (s ++ t)
    split a b s t = simp append_assoc

write-output : (p : Bytes) (o : Out) → output (write p o) ≡ output o ++ p
unfolding write
write-output p o = write_onto-output p o.sent o.pending

flush-output : (o : Out) → output (flush o) ≡ output o
unfolding flush
flush-output o = append-nil (o.sent ++ o.pending)

flush_empties : (o : Out) → (flush o).pending ≡ []
unfolding flush
flush_empties o = refl

module _ (N : Net) where
  -- The replies of a session, one after the other, whatever the buffers do.
  abbrev after_answer : (Bytes → Server N → Bytes) → Bytes → Option (Answer N) → Bytes
  after_answer again rest none = []
  after_answer again rest (some ((reply, true), s)) = reply
  after_answer again rest (some ((reply, false), s)) = reply ++ again rest s

  abbrev answer_read : (Bytes → Server N → Bytes) → Result (List Bytes × Bytes) → Server N → Bytes
  answer_read again (err e) s = []
  answer_read again (ok ([], rest)) s = again rest s
  answer_read again (ok (a ∷ args, rest)) s = after_answer again rest (dispatch N (a ∷ args) s)

  unfoldable pub replies : ℕ → Bytes → Server N → Bytes
  replies zero input s = []
  replies (suc fuel) input s = answer_read (replies fuel) (read_command input) s

  module _ (idle : Bytes → Bool) where
    -- A connection does not run out of fuel, its output is what it had and the replies, and after QUIT
    -- nothing is left in the buffer.
    abbrev Relays : Bytes → Bytes → Ended N idle → Type 0
    Relays before text e =
        (e.0 ≢ no_fuel) × (output e.1.0 ≡ before ++ text) × (e.0 ≡ quitted → e.1.0.pending ≡ [])

    abbrev Again : ℕ → ℕ → Type 0
    Again fuel n =
        (rest : Bytes) (o : Out) (s : Server N)
        → length rest < n
        → Relays (output o) (replies fuel rest s) (handle_conn N idle fuel rest o s)

    replied-Relays :
        (fuel n : ℕ) (rest : Bytes) (o : Out) (s : Server N) (a : Option (Answer N))
        → Again fuel n
        → length rest < n
        → Relays
            (output o)
            (after_answer (replies fuel) rest a)
            (replied N idle (handle_conn N idle fuel) rest o s a)
    replied-Relays fuel n rest o s none again h =
        ((λ e. cc), sym (append-nil (output o)), (λ e. cc))
    replied-Relays fuel n rest o s (some ((reply, true), s')) again h = (
      (λ e. cc),
      flush-output (write reply o) ∙ write-output reply o,
      (λ e. flush_empties (write reply o)),
    )
    replied-Relays fuel n rest o s (some ((reply, false), s')) again h =
        elim (Bool-cases (idle rest)) [
          | inl quiet ↦
              rw quiet (
                onward (flush (write reply o))
                  (flush-output (write reply o) ∙ write-output reply o))
          | inr more ↦ rw more (onward (write reply o) (write-output reply o))
        ]
      where
        onward :
            (o' : Out)
            → output o' ≡ output o ++ reply
            → Relays (output o) (reply ++ replies fuel rest s') (handle_conn N idle fuel rest o' s')
        onward o' e =
            let (ends, relays, empties) = again rest o' s' h in
            (
              ends,
              relays
                  ∙ ap (λ t. t ++ replies fuel rest s') e
                  ∙ append_assoc (output o) reply (replies fuel rest s'),
              empties,
            )

    dropped-Relays :
        (o : Out) (s : Server N) (e : ReadError) → Relays (output o) [] (dropped e, (o, s))
    dropped-Relays o s e = ((λ f. cc), sym (append-nil (output o)), (λ f. cc))

    after_read-Relays :
        (fuel : ℕ) (input : Bytes) (o : Out) (s : Server N) (r : Result (List Bytes × Bytes))
        → read_command input ≡ r
        → Again fuel (length input)
        → Relays
            (output o)
            (answer_read (replies fuel) r s)
            (after_read N idle (handle_conn N idle fuel) r o s)
    after_read-Relays fuel input o s (err eof) e again = dropped-Relays o s eof
    after_read-Relays fuel input o s (err protocol) e again = dropped-Relays o s protocol
    after_read-Relays fuel input o s (err (reply_type c)) e again =
        dropped-Relays o s (reply_type c)
    after_read-Relays fuel input o s (err out_of_fuel) e again = dropped-Relays o s out_of_fuel
    after_read-Relays fuel input o s (err panic) e again =
        ((λ f. cc), sym (append-nil (output o)), (λ f. cc))
    after_read-Relays fuel input o s (ok ([], rest)) e again =
        again rest o s (read_command-shorter input e)
    after_read-Relays fuel input o s (ok (a ∷ args, rest)) e again =
        replied-Relays fuel (length input) rest o s (dispatch N (a ∷ args) s) again
          (read_command-shorter input e)

    handle_conn-Relays :
        (fuel : ℕ) (input : Bytes) (o : Out) (s : Server N)
        → length input < fuel
        → Relays (output o) (replies fuel input s) (handle_conn N idle fuel input o s)
    unfolding handle_conn replies
    handle_conn-Relays zero input o s h = absurd (omega arith)
    handle_conn-Relays (suc fuel) input o s h =
        after_read-Relays fuel input o s (read_command input) refl
          (λ rest o' s' k. handle_conn-Relays fuel rest o' s' (omega arith))

    -- handleConn ends on every input, however its bytes arrive. What it has written, sent or still in
    -- the buffer, is the replies to the commands, each one whole and in their order; and after QUIT all
    -- of it has been sent.
    pub serve_conn_relays :
        (input : Bytes) (s : Server N)
        → let e = serve_conn N idle input s in
          (e.0 ≢ no_fuel)
          × (output e.1.0 ≡ replies (suc (length input)) input s)
          × (e.0 ≡ quitted → e.1.0.pending ≡ [])
    unfolding serve_conn
    serve_conn_relays input s =
        handle_conn-Relays (suc (length input)) input no_output s (omega arith)

    -- A command is read, and answered by at most 4096 bytes, but what follows it, already in the reader's
    -- buffer, is no command: then the connection is dropped and the answer never sent.
    pub answer_unsent :
        (input : Bytes) (s : Server N) (a : Bytes) (args : List Bytes) (rest reply : Bytes)
        (s' : Server N)
        → read_command input ≡ ok (a ∷ args, rest)
        → dispatch N (a ∷ args) s ≡ some ((reply, false), s')
        → length reply ≤ 4096
        → idle rest ≡ false
        → read_command rest ≡ err protocol
        → serve_conn N idle input s
          ≡ (dropped protocol, (record { sent = []; pending = reply }, s'))
    unfolding serve_conn handle_conn write
    answer_unsent [] s a args rest reply s' e d l i f =
        absurd (omega (arith, read_command-shorter [] e))
    answer_unsent (c ∷ cs) s a args rest reply s' e d l i f =
        let fits : leb (length reply) 4096 ≡ true = ground arith in rw (e, d, i, f, fits) refl
