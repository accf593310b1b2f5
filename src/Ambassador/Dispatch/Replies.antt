-- ===== src/Ambassador/Dispatch/Replies.antt =====
-- The replies that the proxy makes itself: each is RESP, but for a name with a line break.
use container_patterns.Common.{
  ◌+◌, ◌^◌, ◌<◌, ◌≡◌, refl, ap, ◌∙◌, inl, inr, Bool, true, false, Option, some, List, [], ◌∷◌, ◌++◌,
  arith, Bytes, codes, All, All-append, length, Bool-cases, ◌==◌, append_assoc, if◌then◌else◌,
}
use container_patterns.Resp.Wire.{ok, crlf}
use container_patterns.Resp.Wire.Lines.{IsInline}
use container_patterns.Resp.Reply.{read_one_reply}
use container_patterns.Resp.Reply.Grammar.{
  Reply, simple, failure, bulk, encode, IsWellFormed, read_one_reply-encode,
}
use container_patterns.Ambassador.Pool.{Net}
use container_patterns.Ambassador.Dispatch.{
  Command, ping, quit, hello, client, keyed, unknown, command_of, to_upper, unknown_command,
  KeyedName, get, set_key, setex, del, Server, Answer, answer, dispatch,
}

-- A test that finds no newline.
unfoldable no_newline : Bytes → Bool
no_newline [] = true
no_newline (c ∷ s) = if c == b'\n' then false else no_newline s

no_newline-IsInline : (s : Bytes) → no_newline s ≡ true → All IsInline s
unfolding no_newline
no_newline-IsInline [] h = tt
no_newline-IsInline (c ∷ s) h = elim (Bool-cases (c == b'\n')) [
  | inl newline ↦ ground arith
  | inr other ↦ ((λ e. ground arith), no_newline-IsInline s (rw other at h))
]

-- A command that is answered without a shard.
abbrev pub IsLocal : Command → List Bytes → Type 0
IsLocal (keyed k) (key ∷ _) = ⊥
IsLocal _ (text ∷ _) = length text + 2 < 2 ^ 63
IsLocal _ [] = Unit

quoted-IsInline :
    (before s after : Bytes)
    → no_newline before ≡ true
    → no_newline after ≡ true
    → All IsInline s
    → All IsInline (before ++ (s ++ after))
quoted-IsInline before s after h k t =
    All-append IsInline before (s ++ after) (no_newline-IsInline before h)
      (All-append IsInline s after t (no_newline-IsInline after k))

split_reply :
    (a b q : Bytes) → ((a ++ (crlf ++ b)) ++ q) ++ crlf ≡ (a ++ crlf) ++ (b ++ (q ++ crlf))
split_reply a b q = simp append_assoc

module _ (N : Net) where
  -- A reply is a well-formed one, and the server is as before.
  abbrev RepliesWell : Server N → Option (Answer N) → Type 0
  RepliesWell s o =
      (r : Reply) × (close : Bool) × IsWellFormed r × (o ≡ some ((encode r, close), s))

  fails :
      (s : Server N) (text : Bytes)
      → All IsInline text
      → RepliesWell s (some ((encode (failure text), false), s))
  fails s text h = (failure text, false, h, refl)

  constant_failure :
      (s : Server N) (text : Bytes)
      → no_newline text ≡ true
      → RepliesWell s (some ((encode (failure text), false), s))
  constant_failure s text h = fails s text (no_newline-IsInline text h)

  local_reply :
      (c : Command) (name : Bytes) (args : List Bytes) (s : Server N)
      → All IsInline name
      → IsLocal c args
      → RepliesWell s (answer N c (name ∷ args) s)
  unfolding no_newline
  local_reply ping name [] s h l =
      (simple (codes "PONG"), false, no_newline-IsInline (codes "PONG") refl, refl)
  local_reply ping name (text ∷ args) s h l = (bulk text, false, l, refl)
  local_reply quit name args s h l =
      (simple (codes "OK"), true, no_newline-IsInline (codes "OK") refl, refl)
  local_reply hello name args s h l = constant_failure s (codes "ERR unknown command 'HELLO'") refl
  local_reply client name args s h l =
      (simple (codes "OK"), false, no_newline-IsInline (codes "OK") refl, refl)
  local_reply (keyed k) name [] s h l = wrong_arguments_reply k
    where
      wrong_arguments_reply : (k : KeyedName) → RepliesWell s (answer N (keyed k) (name ∷ []) s)
      wrong_arguments_reply get =
          constant_failure s (codes "ERR wrong number of arguments for 'get' command") refl
      wrong_arguments_reply set_key =
          constant_failure s (codes "ERR wrong number of arguments for 'set' command") refl
      wrong_arguments_reply setex =
          constant_failure s (codes "ERR wrong number of arguments for 'setex' command") refl
      wrong_arguments_reply del =
          constant_failure s (codes "ERR wrong number of arguments for 'del' command") refl
  local_reply (keyed k) name (key ∷ args) s h l = absurd l
  local_reply unknown name args s h l =
      fails s (codes "ERR unknown command '" ++ (name ++ codes "'"))
        (quoted-IsInline (codes "ERR unknown command '") name (codes "'") refl refl h)

  -- A command that needs no shard leaves the server as it is. If its name has no newline, its reply
  -- is one well-formed RESP reply.
  pub dispatch_local_reply :
      (name : Bytes) (args : List Bytes) (s : Server N)
      → All IsInline name
      → IsLocal (command_of (to_upper name)) args
      → (r : Reply) × (close : Bool) × IsWellFormed r
        × (dispatch N (name ∷ args) s ≡ some ((encode r, close), s))
  unfolding dispatch
  dispatch_local_reply name args s h l = local_reply (command_of (to_upper name)) name args s h l

  -- An unknown command with a line break in its name is answered in two pieces: a client reads the
  -- part before the first break as the reply, and the part after it is left for the next command's.
  pub unknown_command_splits :
      (a b : Bytes) (args : List Bytes) (s : Server N)
      → command_of (to_upper (a ++ (crlf ++ b))) ≡ unknown
      → All IsInline a
      → let first = encode (failure (codes "ERR unknown command '" ++ a)) in
        let reply = unknown_command (a ++ (crlf ++ b)) in
        (dispatch N ((a ++ (crlf ++ b)) ∷ args) s ≡ some ((reply, false), s))
        × (read_one_reply reply ≡ ok (first, b ++ (codes "'" ++ crlf)))
  unfolding dispatch no_newline
  unknown_command_splits a b args s e h =
      let text = codes "ERR unknown command '" in
      (
        rw e refl,
        ap (λ t. read_one_reply (b'-' ∷ (text ++ t))) (split_reply a b (codes "'"))
            ∙ read_one_reply-encode (failure (text ++ a)) (b ++ (codes "'" ++ crlf))
                (All-append IsInline text a (no_newline-IsInline text refl) h),
      )
