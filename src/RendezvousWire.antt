-- ===== src/RendezvousWire.antt =====
-- p2p-rendezvous/src/lib.rs: the frames `[length : u32 BE | payload]` between a peer and the rendezvous server.
pub mod Laws
use p2pfile_transfer.Common.{
  ℕ, ◌%◌, ◌^◌, ◌≡◌, ◌⊎◌, inl, inr, Bool, List, ◌++◌, Option, none, some, ltb, if◌then◌else◌, length,
  take, drop,
}
use p2pfile_transfer.Common.Bytes.{to_be_bytes, from_be_bytes}
use p2pfile_transfer.RendezvousProtocol.{Message}

-- `rmp_serde`: what it encodes, it decodes.
pub record MessageCodec : Type 0 where
  pub to_vec : Message → Option (List ℕ)
  pub from_slice : List ℕ → Option Message
  pub from_slice-to_vec :
      (message : Message) (payload : List ℕ)
      → to_vec message ≡ some payload
      → from_slice payload ≡ some message

-- `RendezvousProtoError`
pub data ProtoError : Type 0 where
  encode decode io : ProtoError
  frame_too_large : ℕ → ℕ → ProtoError

abbrev pub max_frame_bytes : ℕ
max_frame_bytes = 4096

message_of : Option Message → List ℕ → ProtoError ⊎ (Message × List ℕ)
message_of none later = inl decode
message_of (some msg) later = inr (msg, later)

module _ (codec : MessageCodec) where
  -- What was written before, and whether the socket takes what is written now.
  unfoldable pub write_message : Bool → Message → List ℕ → (ProtoError ⊎ Unit {0}) × List ℕ
  write_message writable msg w = elim (codec.to_vec msg) [
    | none ↦ (inl encode, w)
    | some payload ↦
        let size = length payload % 2 ^ 32 in
        if ltb max_frame_bytes size
        then (inl (frame_too_large size max_frame_bytes), w)
        else if writable
        then (inr tt, w ++ (to_be_bytes 4 size ++ payload))
        else (inl io, w)
  ]

  -- The message, and the bytes behind its frame; the stream ends behind the last byte.
  unfoldable pub read_message : List ℕ → ProtoError ⊎ (Message × List ℕ)
  unfolding message_of
  read_message bytes =
      let len = from_be_bytes (take 4 bytes) in
      let body = drop 4 bytes in
      if ltb (length bytes) 4
      then inl io
      else if ltb max_frame_bytes len
      then inl (frame_too_large len max_frame_bytes)
      else if ltb (length body) len
      then inl io
      else message_of (codec.from_slice (take len body)) (drop len body)
