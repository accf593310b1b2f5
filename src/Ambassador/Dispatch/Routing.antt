-- ===== src/Ambassador/Dispatch/Routing.antt =====
-- Where commands go, and that every pool stays balanced.
use mathlib.Core.Path.{subst}
use container_patterns.Common.{
  ℕ, zero, suc, ◌%◌, ◌^◌, ◌<◌, ◌≡◌, refl, sym, ◌∙◌, Option, none, some, List, [], ◌∷◌, arith, Bytes,
  All, ◌++◌, codes, length, length-set, get_elem?, set, false, ◌==◌, if◌then◌else◌,
}
use container_patterns.Resp.Command.{encode_command}
use container_patterns.Ambassador.Crc32.{checksum}
use container_patterns.Ambassador.Pool.{Net, Pool, do_command}
use container_patterns.Ambassador.Pool.Balance.{Balanced, do_command-Balanced}
use container_patterns.Ambassador.Dispatch.{
  Command, ping, quit, hello, client, keyed, unknown, command_of, to_upper, shard_for, KeyedName,
  Answer, relayed, forward, answer, dispatch,
}

-- There are shards, and their number is a uint32.
abbrev pub IsServed : List Pool → Type 0
IsServed pools = (0 < length pools) × (length pools < 2 ^ 32)

get_elem?_below :
    (pools : List Pool) (i : ℕ) → i < length pools → (p : Pool) × (get_elem? pools i ≡ some p)
get_elem?_below [] i h = absurd (omega arith)
get_elem?_below (p ∷ pools) zero h = (p, refl)
get_elem?_below (p ∷ pools) (suc i) h = get_elem?_below pools i (omega arith)

All-get_elem? :
    (P : Pool → Type 0) (pools : List Pool) (i : ℕ) {p : Pool}
    → All P pools
    → get_elem? pools i ≡ some p
    → P p
All-get_elem? P [] i h e = cc
All-get_elem? P (q ∷ pools) zero {p} (h, hs) e = let same : q ≡ p = cc in subst P same h
All-get_elem? P (q ∷ pools) (suc i) (h, hs) e = All-get_elem? P pools i hs e

All-set :
    (P : Pool → Type 0) (pools : List Pool) (i : ℕ) {p : Pool}
    → All P pools
    → P p
    → All P (set pools i p)
All-set P [] i h e = h
All-set P (q ∷ pools) zero (h, hs) e = (e, hs)
All-set P (q ∷ pools) (suc i) (h, hs) e = (h, All-set P pools i hs e)

get_elem?-set_any :
    (pools : List Pool) (i : ℕ) (p : Pool) (j : ℕ)
    → i < length pools
    → get_elem? (set pools i p) j ≡ (if j == i then some p else get_elem? pools j)
get_elem?-set_any [] i p j h = absurd (omega arith)
get_elem?-set_any (q ∷ pools) zero p zero h = refl
get_elem?-set_any (q ∷ pools) zero p (suc j) h = ground arith
get_elem?-set_any (q ∷ pools) (suc i) p zero h = ground arith
get_elem?-set_any (q ∷ pools) (suc i) p (suc j) h =
    ground (arith, get_elem?-set_any pools i p j (omega arith))

-- The index is one of the shards'.
shard_for_below :
    (key : Bytes) (n : ℕ)
    → 0 < n
    → n < 2 ^ 32
    → (shard_for key n ≡ some (checksum key % n)) × (checksum key % n < n)
unfolding shard_for
shard_for_below key zero h k = absurd (omega arith)
shard_for_below key (suc m) h k =
    let small : suc m % 2 ^ 32 ≡ suc m = omega arith in rw (shard_for, small) (refl, omega arith)

module _ (N : Net) where
  open N use {World}

  forward_routes :
      (key : Bytes) (cmd : List Bytes) (pools : List Pool) (w : World)
      → IsServed pools
      → let i = checksum key % length pools in
        (p : Pool) × (i < length pools)
        × (get_elem? pools i ≡ some p)
        × (forward N key cmd (pools, w)
            ≡ some (relayed N i pools (do_command N (encode_command cmd) (p, w))))
  unfolding forward
  forward_routes key cmd pools w served =
      let (found, below) = shard_for_below key (length pools) served.0 served.1 in
      let (p, there) = get_elem?_below pools (checksum key % length pools) below in
      (p, below, there, rw (found, there) refl)

  -- What the client of a keyed command is told.
  abbrev pub told : Option Bytes → Bytes
  told (some reply) = reply
  told none = codes "-ERR ambassador: upstream shard unavailable" ++ 13 ∷ 10 ∷ []

  -- The pool at `i` is `p'`, the others are those of `pools`.
  abbrev pub ChangedAt : ℕ → Pool → List Pool → List Pool → Type 0
  ChangedAt i p' pools after =
      (j : ℕ) → get_elem? after j ≡ (if j == i then some p' else get_elem? pools j)

  -- What forward makes of a call that was answered or failed.
  Relays : ℕ → List Pool → Option Bytes × (Pool × World) → Option (Answer N) → Type 0
  Relays i pools (r, (p, w)) o =
      (after : List Pool) × (o ≡ some ((told r, false), (after, w))) × ChangedAt i p pools after

  relayed-Relays :
      (i : ℕ) (pools : List Pool) (r : Option Bytes × (Pool × World))
      → i < length pools
      → Relays i pools r (some (relayed N i pools r))
  unfolding Relays
  relayed-Relays i pools (some reply, (p, w)) h =
      (set pools i p, refl, λ j. get_elem?-set_any pools i p j h)
  relayed-Relays i pools (none, (p, w)) h =
      (set pools i p, refl, λ j. get_elem?-set_any pools i p j h)

  -- A keyed command goes to one shard, the one at the CRC-32 of its key modulo the number of shards, if
  -- there are shards and their number is a uint32: the reply is what that shard's pool returns for the
  -- encoded command, or the error line if it fails; the connection stays open; that pool is then as
  -- its call leaves it, and every other one is as it was.
  pub dispatch_routes :
      (k : KeyedName) (name key : Bytes) (args : List Bytes) (pools : List Pool) (w : World)
      → command_of (to_upper name) ≡ keyed k
      → IsServed pools
      → let cmd = name ∷ key ∷ args in
        let i = checksum key % length pools in
        (p : Pool) × (get_elem? pools i ≡ some p)
        × (let (r, (p', w')) = do_command N (encode_command cmd) (p, w) in
            (after : List Pool) × (dispatch N cmd (pools, w) ≡ some ((told r, false), (after, w')))
            × ChangedAt i p' pools after)
  unfolding dispatch Relays
  dispatch_routes k name key args pools w e served =
      let (p, below, there, went) = forward_routes key (name ∷ key ∷ args) pools w served in
      let r = do_command N (encode_command (name ∷ key ∷ args)) (p, w) in
      let routed = relayed-Relays (checksum key % length pools) pools r below in
      (
        p,
        there,
        rw e (subst (λ o. Relays (checksum key % length pools) pools r o) (sym went) routed),
      )

  -- The answer to a call keeps the shards and their balance.
  abbrev Kept : List Pool → Option (Answer N) → Type 0
  Kept pools o =
      (a : Answer N) × (o ≡ some a) × (length a.1.0 ≡ length pools) × All (Balanced []) a.1.0

  relayed-Kept :
      (i : ℕ) (pools : List Pool) (r : Option Bytes × (Pool × World))
      → All (Balanced []) pools
      → Balanced [] r.1.0
      → Kept pools (some (relayed N i pools r))
  relayed-Kept i pools (none, (p, w)) b c = (
    relayed N i pools (none, (p, w)),
    refl,
    length-set pools i p,
    All-set (Balanced []) pools i b c,
  )
  relayed-Kept i pools (some reply, (p, w)) b c = (
    relayed N i pools (some reply, (p, w)),
    refl,
    length-set pools i p,
    All-set (Balanced []) pools i b c,
  )

  forward-Kept :
      (key : Bytes) (cmd : List Bytes) (pools : List Pool) (w : World)
      → IsServed pools
      → All (Balanced []) pools
      → Kept pools (forward N key cmd (pools, w))
  forward-Kept key cmd pools w served b =
      let i = checksum key % length pools in
      let (p, below, there, went) = forward_routes key cmd pools w served in
      let text = encode_command cmd in
      let (a, e, sizes, rest) =
        relayed-Kept i pools (do_command N text (p, w)) b
          (do_command-Balanced N text p w (All-get_elem? (Balanced []) pools i b there)) in
      (a, went ∙ e, sizes, rest)

  answer-Kept :
      (c : Command) (name : Bytes) (args : List Bytes) (pools : List Pool) (w : World)
      → IsServed pools
      → All (Balanced []) pools
      → Kept pools (answer N c (name ∷ args) (pools, w))
  answer-Kept ping name [] pools w served b = (_, refl, refl, b)
  answer-Kept ping name (text ∷ args) pools w served b = (_, refl, refl, b)
  answer-Kept quit name args pools w served b = (_, refl, refl, b)
  answer-Kept hello name args pools w served b = (_, refl, refl, b)
  answer-Kept client name args pools w served b = (_, refl, refl, b)
  answer-Kept (keyed k) name [] pools w served b = (_, refl, refl, b)
  answer-Kept (keyed k) name (key ∷ args) pools w served b =
      forward-Kept key (name ∷ key ∷ args) pools w served b
  answer-Kept unknown name args pools w served b = (_, refl, refl, b)

  -- If every pool is balanced before a command, the command is answered, no index is out of range,
  -- there are as many pools as before, and every pool is balanced after it.
  pub dispatch-Balanced :
      (name : Bytes) (args : List Bytes) (pools : List Pool) (w : World)
      → IsServed pools
      → All (Balanced []) pools
      → (a : Answer N) × (dispatch N (name ∷ args) (pools, w) ≡ some a)
        × (length a.1.0 ≡ length pools)
        × All (Balanced []) a.1.0
  unfolding dispatch
  dispatch-Balanced name args pools w served b =
      answer-Kept (command_of (to_upper name)) name args pools w served b
