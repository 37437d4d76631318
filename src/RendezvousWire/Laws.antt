-- ===== src/RendezvousWire/Laws.antt =====
-- lib.rs: a message that was written is read back.
use p2pfile_transfer.Common.{
  ℕ, ◌%◌, ◌^◌, ◌≤◌, ◌<◌, ◌≡◌, ◌∙◌, refl, inl, inr, Bool, false, List, ◌++◌, some, ltb, length,
  length-append, take_front, drop_front, arith, Bool-cases, Option-cases,
}
use mathlib.Core.List.{append_assoc}
use p2pfile_transfer.Common.Bytes.{
  to_be_bytes, from_be_bytes, length-to_be_bytes, from_be_bytes-to_be_bytes,
}
use p2pfile_transfer.RendezvousProtocol.{Message}
use p2pfile_transfer.RendezvousWire.{
  MessageCodec, max_frame_bytes, write_message, read_message, message_of,
}

module _ (codec : MessageCodec) (msg : Message) where
  module _ (payload : List ℕ) (small : length payload ≤ max_frame_bytes) where
    size : List ℕ
    size = to_be_bytes 4 (length payload % 2 ^ 32)

    number : from_be_bytes size ≡ length payload
    unfolding size
    number =
        from_be_bytes-to_be_bytes 4 (length payload % 2 ^ 32) (omega arith) ∙ omega (arith, small)

    four : length size ≡ 4
    unfolding size
    four = length-to_be_bytes 4 (length payload % 2 ^ 32)

    read_frame :
        (rest : List ℕ)
        → codec.from_slice payload ≡ some msg
        → read_message codec ((size ++ payload) ++ rest) ≡ inr (msg, rest)
    unfolding read_message message_of
    read_frame rest known =
        let long : ltb (length (size ++ (payload ++ rest))) 4 ≡ false =
          ground (arith, length-append size (payload ++ rest), four) in
        let allowed : ltb max_frame_bytes (length payload) ≡ false = ground (arith, small) in
        let all_there : ltb (length (payload ++ rest)) (length payload) ≡ false =
          ground (arith, length-append payload rest) in
        rw (
          append_assoc size payload rest,
          long,
          take_front size four (payload ++ rest),
          drop_front size four (payload ++ rest),
          number,
          allowed,
          all_there,
          take_front payload refl rest,
          drop_front payload refl rest,
          known,
        )

  -- A message that was written is one frame behind what was written before, and the frame is read
  -- back as the message, whatever follows it. The hypothesis says that the payload is shorter than
  -- 4 GiB, beyond which the cast of its length to u32 wraps.
  pub read_message-write_message :
      (writable : Bool) (w w' : List ℕ)
      → ((payload : List ℕ) → codec.to_vec msg ≡ some payload → length payload < 2 ^ 32)
      → write_message codec writable msg w ≡ (inr tt, w')
      → (frame : List ℕ) × (w' ≡ w ++ frame)
        × ((rest : List ℕ) → read_message codec (frame ++ rest) ≡ inr (msg, rest))
  unfolding write_message size
  read_message-write_message writable w w' short e = elim (Option-cases (codec.to_vec msg)) [
    | inl nothing ↦ let never : ⊥ = ground (arith, nothing, e) in absurd never
    | inr (payload, enc) ↦
        let below = short payload enc in
        elim (Bool-cases (ltb max_frame_bytes (length payload % 2 ^ 32))) [
          | inl large ↦ let never : ⊥ = ground (arith, enc, large, e) in absurd never
          | inr fits ↦
              let small : length payload ≤ max_frame_bytes = ground (arith, fits, below) in
              (
                size payload small ++ payload,
                elim (Bool-cases writable) [
                  | inl takes ↦ ground (arith, enc, fits, takes, e)
                  | inr closed ↦
                      let never : ⊥ = ground (arith, enc, fits, closed, e) in absurd never
                ],
                λ rest. read_frame payload small rest (codec.from_slice-to_vec msg payload enc),
              )
        ]
  ]
