-- ===== src/Framing/Laws.antt =====
-- framing.rs: what is written is read back, and what is read was a whole frame.
use p2pfile_transfer.Common.{
  ℕ, zero, suc, ◌+◌, ◌-◌, ◌%◌, ◌^◌, ◌≤◌, ◌<◌, ◌≡◌, refl, ap, ◌∙◌, inl, inr, true, false, List, [],
  ◌∷◌, ◌++◌, arith, length, length-append, take, take_front, drop_front, take-add, length-take,
  some, ltb, leb, bytes_eq_refl, Option-cases, Bool-cases,
}
use mathlib.Core.List.{append_assoc, append-nil}
use p2pfile_transfer.Common.Bytes.{
  to_be_bytes, from_be_bytes, length-to_be_bytes, from_be_bytes-to_be_bytes,
}
use p2pfile_transfer.Errors.{Result, ok, err, panic, protocol, disconnected}
use p2pfile_transfer.Protocol.{Message}
use p2pfile_transfer.Effects.{and_then}
use p2pfile_transfer.Framing.{
  MessagePack, Reader, Writer, Ending, closed, max_message_size, protocol_magic, frame, read_first,
  read_exact, ensure, decoded, of_ending, write_message, read_message, write_messages,
  read_messages,
}

abbrev pub at : List ℕ → Ending → Reader
at bytes ending = record { bytes = bytes; ending = ending }

module _ (ending : Ending) where
  read_exact_some :
      (n : ℕ) (xs ys : List ℕ)
      → length xs ≡ n
      → read_exact n (at (xs ++ ys) ending) ≡ (ok xs, at ys ending)
  unfolding read_exact
  read_exact_some n xs ys e =
      let long : leb n (length (xs ++ ys)) ≡ true = ground (arith, length-append xs ys, e) in
      rw (long, take_front xs e ys, drop_front xs e ys)

  read_exact_few :
      (n : ℕ) (xs : List ℕ)
      → length xs < n
      → read_exact n (at xs ending) ≡ (err protocol, at [] ending)
  unfolding read_exact
  read_exact_few n xs h = let few : leb n (length xs) ≡ false = ground arith in rw few

  read_first_some :
      (x : ℕ) (xs : List ℕ) → read_first (at (x ∷ xs) ending) ≡ (ok (x ∷ []), at xs ending)
  unfolding read_first
  read_first_some x xs = let more : ltb 0 (suc (length xs)) ≡ true = ground arith in rw more

  module _ (codec : MessagePack) where
    module _ (payload : List ℕ) (small : length payload ≤ max_message_size) where
      size_bytes : List ℕ
      size_bytes = to_be_bytes 4 (length payload % 2 ^ 32)

      size : from_be_bytes size_bytes ≡ length payload
      unfolding size_bytes
      size = from_be_bytes-to_be_bytes 4 (length payload % 2 ^ 32) (omega arith) ∙ omega arith

      four : length size_bytes ≡ 4
      unfolding size_bytes
      four = length-to_be_bytes 4 (length payload % 2 ^ 32)

      frame_front :
          (rest : List ℕ)
          → frame payload ++ rest ≡ 80 ∷ 50 ∷ 80 ∷ 70 ∷ (size_bytes ++ (payload ++ rest))
      unfolding frame size_bytes
      frame_front rest = ap (λ xs. 80 ∷ 50 ∷ 80 ∷ 70 ∷ xs) (append_assoc size_bytes payload rest)

      read_message-frame :
          (rest : List ℕ) (message : Message)
          → codec.from_slice payload ≡ some message
          → read_message codec (at (frame payload ++ rest) ending) ≡ (ok message, at rest ending)
      unfolding read_message decoded ensure
      read_message-frame rest message known =
          let allowed : leb (length payload) max_message_size ≡ true = ground arith in
          rw (
            frame_front rest,
            read_first_some 80 (50 ∷ 80 ∷ 70 ∷ (size_bytes ++ (payload ++ rest))),
            read_exact_some 3 (50 ∷ 80 ∷ 70 ∷ []) (size_bytes ++ (payload ++ rest)) refl,
            bytes_eq_refl protocol_magic,
            read_exact_some 4 size_bytes (payload ++ rest) four,
            size,
            allowed,
            read_exact_some (length payload) payload rest refl,
            decoded,
            known,
          )

      cut_at_four : (i : ℕ) → take (4 + i) (size_bytes ++ payload) ≡ size_bytes ++ take i payload
      cut_at_four i =
          take-add 4 i (size_bytes ++ payload)
          ∙ rw (take_front size_bytes four payload, drop_front size_bytes four payload)

      length-frame : length (frame payload) ≡ 8 + length payload
      unfolding frame
      length-frame = omega (
        arith,
        length-append (to_be_bytes 4 (length payload % 2 ^ 32)) payload,
        length-to_be_bytes 4 (length payload % 2 ^ 32),
      )

      after_magic :
          (j : ℕ)
          → j < 4 + length payload
          → read_message codec (at (80 ∷ 50 ∷ 80 ∷ 70 ∷ take j (size_bytes ++ payload)) ending)
            ≡ (err protocol, at [] ending)
      unfolding read_message decoded ensure
      after_magic j h =
          let allowed : leb (length payload) max_message_size ≡ true = ground arith in
          let magic_read = read_first_some 80 (50 ∷ 80 ∷ 70 ∷ take j (size_bytes ++ payload)) in
          let rest_read =
            read_exact_some 3 (50 ∷ 80 ∷ 70 ∷ []) (take j (size_bytes ++ payload)) refl in
          elim (Bool-cases (ltb j 4)) [
            | inl few ↦
                let l : length (take j (size_bytes ++ payload)) < 4 =
                  ground (arith, few, length-take j (size_bytes ++ payload)) in
                rw (
                  magic_read,
                  rest_read,
                  bytes_eq_refl protocol_magic,
                  read_exact_few 4 (take j (size_bytes ++ payload)) l,
                )
            | inr many ↦
                let split : j ≡ 4 + (j - 4) = ground (arith, many) in
                let same : take j (size_bytes ++ payload) ≡ size_bytes ++ take (j - 4) payload =
                  ap (λ i. take i (size_bytes ++ payload)) split ∙ cut_at_four (j - 4) in
                let l : length (take (j - 4) payload) < length payload =
                  ground (arith, many, length-take (j - 4) payload) in
                rw (
                  magic_read,
                  rest_read,
                  bytes_eq_refl protocol_magic,
                  same,
                  read_exact_some 4 size_bytes (take (j - 4) payload) four,
                  size,
                  allowed,
                  read_exact_few (length payload) (take (j - 4) payload) l,
                )
          ]

      in_magic :
          (xs : List ℕ)
          → length xs < 3
          → read_message codec (at (80 ∷ xs) ending) ≡ (err protocol, at [] ending)
      unfolding read_message
      in_magic xs h = rw (read_first_some 80 xs, read_exact_few 3 xs h)

      -- A frame that is cut off anywhere behind its first byte is a protocol error, never a clean
      -- disconnect and never a message, however the stream ended.
      pub read_message_truncated :
          (n : ℕ)
          → 0 < n
          → n < length (frame payload)
          → read_message codec (at (take n (frame payload)) ending) ≡ (err protocol, at [] ending)
      unfolding frame size_bytes
      read_message_truncated zero pos h = absurd (omega arith)
      read_message_truncated (suc zero) pos h = in_magic [] (omega arith)
      read_message_truncated (suc (suc zero)) pos h = in_magic (50 ∷ []) (omega arith)
      read_message_truncated (suc (suc (suc zero))) pos h = in_magic (50 ∷ 80 ∷ []) (omega arith)
      read_message_truncated (suc (suc (suc (suc j)))) pos h =
          after_magic j (omega (arith, length-frame))

module _ (codec : MessagePack) where
  -- A message that was written was encoded, and the writer has its frame behind what it had.
  write_message_ok :
      (message : Message) (w out : Writer)
      → write_message codec message w ≡ (ok tt, out)
      → (payload : List ℕ) × (codec.to_vec message ≡ some payload)
        × (length payload ≤ max_message_size)
        × (out ≡ w ++ frame payload)
  unfolding write_message
  write_message_ok message w out e = elim (Option-cases (codec.to_vec message)) [
    | inl unencoded ↦ let never : ⊥ = ground (arith, unencoded, e) in absurd never
    | inr (payload, known) ↦ elim (Bool-cases (ltb max_message_size (length payload))) [
      | inl large ↦ let never : ⊥ = ground (arith, known, large, e) in absurd never
      | inr fits ↦ (payload, known, ground (arith, fits), ground (arith, known, fits, e))
    ]
  ]

  and_then_ok :
      (m : Result (Unit {0}) × Writer) (later : List Message) (out : Writer)
      → and_then m (λ _. write_messages codec later) ≡ (ok tt, out)
      → (middle : Writer) × (m ≡ (ok tt, middle))
        × (write_messages codec later middle ≡ (ok tt, out))
  and_then_ok (ok tt, middle) later out e = (middle, refl, e)
  and_then_ok (err x, middle) later out e = cc
  and_then_ok (panic, middle) later out e = cc

  disconnects : read_message codec (at [] closed) ≡ (err disconnected, at [] closed)
  unfolding read_message read_first of_ending
  disconnects = refl

  -- Messages that were all written are read back in order, whatever follows them, and what they
  -- wrote is all that they consume; once the peer closes behind them, the next read reports a clean
  -- disconnect.
  pub read_messages-write_messages :
      (messages : List Message) (w out : Writer)
      → write_messages codec messages w ≡ (ok tt, out)
      → (wire : List ℕ) × (out ≡ w ++ wire)
        × ((rest : List ℕ) (ending : Ending)
            → read_messages codec (length messages) (at (wire ++ rest) ending)
              ≡ (ok messages, at rest ending))
        × (read_message codec (at [] closed) ≡ (err disconnected, at [] closed))
  unfolding write_messages read_messages
  read_messages-write_messages [] w out e =
      ([], ground (arith, append-nil w, e), λ rest ending. refl, disconnects)
  read_messages-write_messages (message ∷ later) w out e =
      let (middle, first, others) = and_then_ok (write_message codec message w) later out e in
      let (payload, known, fits, front) = write_message_ok message w middle first in
      let (wire, back, reads, ended) = read_messages-write_messages later middle out others in
      (
        frame payload ++ wire,
        back ∙ ap (λ xs. xs ++ wire) front ∙ append_assoc w (frame payload) wire,
        λ rest ending. rw (
          append_assoc (frame payload) wire rest,
          read_message-frame ending codec payload fits (wire ++ rest) message
              (codec.from_slice-to_vec message payload known),
          reads rest ending,
        ),
        ended,
      )
