-- ===== src/Framing.antt =====
-- p2p-core/src/network/framing.rs: messages as frames `[magic | length : u32 BE | payload]`.
pub mod Laws
pub mod Runs
use p2pfile_transfer.Common.{
  ℕ, suc, ◌+◌, ◌-◌, ◌*◌, ◌%◌, ◌^◌, ◌≡◌, Bool, true, false, List, [], ◌∷◌, ◌++◌, Option, none, some,
  ltb, leb, bytes_eq, if◌then◌else◌, length, take, drop, not,
}
use p2pfile_transfer.Common.Bytes.{to_be_bytes, from_be_bytes}
use p2pfile_transfer.Errors.{
  Error, Result, ok, err, disconnected, network, protocol, serialization, deserialization,
}
use p2pfile_transfer.Effects.{M, and_then, ◌>>=◌, ◌>>◌, done, fail}
use p2pfile_transfer.Protocol.{Message}

-- `rmp_serde`: what it encodes, it decodes.
pub record MessagePack : Type 0 where
  pub to_vec : Message → Option (List ℕ)
  pub from_slice : List ℕ → Option Message
  pub from_slice-to_vec :
      (message : Message) (payload : List ℕ)
      → to_vec message ≡ some payload
      → from_slice payload ≡ some message

abbrev pub max_message_size : ℕ
max_message_size = 10 * 1024 * 1024

-- `PROTOCOL_MAGIC`, b"P2PF".
abbrev pub protocol_magic : List ℕ
protocol_magic = 80 ∷ 50 ∷ 80 ∷ 70 ∷ []

-- Behind the last byte of a stream: a close, an I/O error of one of the kinds that a closed
-- connection has, or another I/O error.
pub data Ending : Type 0 where
  closed aborted broken : Ending

-- A reader: the bytes still to come.
pub record Reader : Type 0 where
  pub bytes : List ℕ
  pub ending : Ending

-- A writer: the bytes that were written, in order.
abbrev pub Writer : Type 0
Writer = List ℕ

-- `frame` in `write_message`; the length is cast to u32.
unfoldable pub frame : List ℕ → List ℕ
frame payload = protocol_magic ++ (to_be_bytes 4 (length payload % 2 ^ 32) ++ payload)

of_ending : Ending → Error
of_ending closed = disconnected
of_ending aborted = disconnected
of_ending broken = network

-- `read` of one byte, with its outcome mapped as in `read_message`.
read_first : M Reader (List ℕ)
unfolding of_ending
read_first r =
    if ltb 0 (length r.bytes)
    then (ok (take 1 r.bytes), record r { bytes = drop 1 r.bytes })
    else (err (of_ending r.ending), r)

-- `read_exact`, every failure of which becomes a protocol error.
read_exact : ℕ → M Reader (List ℕ)
read_exact n r =
    if leb n (length r.bytes)
    then (ok (take n r.bytes), record r { bytes = drop n r.bytes })
    else (err protocol, record r { bytes = [] })

ensure : Bool → Error → M Reader (Unit {0})
ensure true e r = (ok tt, r)
ensure false e r = (err e, r)

module _ (codec : MessagePack) where
  decoded : List ℕ → M Reader Message
  decoded payload r = elim (codec.from_slice payload) [
    | none ↦ (err deserialization, r)
    | some message ↦ (ok message, r)
  ]

  unfoldable pub write_message : Message → M Writer (Unit {0})
  write_message message w = elim (codec.to_vec message) [
    | none ↦ (err serialization, w)
    | some payload ↦
        if ltb max_message_size (length payload)
        then (err protocol, w)
        else (ok tt, w ++ frame payload)
  ]

  unfoldable pub read_message : M Reader Message
  unfolding read_first read_exact ensure decoded
  read_message = do
    first ← read_first
    magic ← read_exact 3
    ensure (bytes_eq (first ++ magic) protocol_magic) protocol
    len_buf ← read_exact 4
    ensure (leb (from_be_bytes len_buf) max_message_size) protocol
    payload ← read_exact (from_be_bytes len_buf)
    decoded payload

  -- Several messages, one behind the other.
  unfoldable pub write_messages : List Message → M Writer (Unit {0})
  write_messages [] w = (ok tt, w)
  write_messages (message ∷ later) w =
      and_then (write_message message w) (λ _. write_messages later)

  -- `count` messages, read one behind the other.
  unfoldable pub read_messages : ℕ → M Reader (List Message)
  read_messages ℕ.zero r = (ok [], r)
  read_messages (suc count) r = and_then (read_message r) (λ message.
      λ r1. and_then (read_messages count r1) (λ later. λ r2. (ok (message ∷ later), r2)))
