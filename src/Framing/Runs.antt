-- ===== src/Framing/Runs.antt =====
-- framing.rs: the theorems at concrete inputs.
use p2pfile_transfer.Common.{
  ℕ, zero, suc, ◌≡◌, refl, List, [], ◌∷◌, ◌++◌, take, Option, some, none, arith,
}
use p2pfile_transfer.Common.Bytes.{to_be_bytes}
use p2pfile_transfer.Errors.{ok, err, protocol, disconnected}
use p2pfile_transfer.Protocol.{Message}
use p2pfile_transfer.Framing.{
  MessagePack, Ending, closed, aborted, frame, write_message, read_message, write_messages,
  read_messages,
}
use p2pfile_transfer.Framing.Laws.{at, read_message_truncated, read_messages-write_messages}

-- A codec for the two messages `ping` and `pause`.
abbrev to_bytes : Message → Option (List ℕ)
to_bytes Message.ping = some (1 ∷ 7 ∷ [])
to_bytes Message.pause = some (2 ∷ [])
to_bytes _ = none

abbrev of_bytes : List ℕ → Option Message
of_bytes (suc zero ∷ _) = some Message.ping
of_bytes (suc (suc zero) ∷ _) = some Message.pause
of_bytes _ = none

of_bytes-to_bytes :
    (message : Message) (payload : List ℕ)
    → to_bytes message ≡ some payload
    → of_bytes payload ≡ some message
of_bytes-to_bytes Message.ping payload e = let same : 1 ∷ 7 ∷ [] ≡ payload = cc in rw (← same)
of_bytes-to_bytes Message.pause payload e = let same : 2 ∷ [] ≡ payload = cc in rw (← same)
of_bytes-to_bytes _ payload e = cc

abbrev codec : MessagePack
codec = record { to_vec = to_bytes; from_slice = of_bytes; from_slice-to_vec = of_bytes-to_bytes }

abbrev wire : List ℕ
wire = 80 ∷ 50 ∷ 80 ∷ 70 ∷ 0 ∷ 0 ∷ 0 ∷ 2 ∷ 1 ∷ 7 ∷ 80 ∷ 50 ∷ 80 ∷ 70 ∷ 0 ∷ 0 ∷ 0 ∷ 1 ∷ 2 ∷ []

written : write_messages codec (Message.ping ∷ Message.pause ∷ []) (99 ∷ []) ≡ (ok tt, 99 ∷ wire)
unfolding write_messages write_message frame to_be_bytes
written = refl

read_messages-write_messages_example :
    (bytes : List ℕ) × (99 ∷ wire ≡ (99 ∷ []) ++ bytes)
    × ((rest : List ℕ) (ending : Ending)
        → read_messages codec 2 (at (bytes ++ rest) ending)
          ≡ (ok (Message.ping ∷ Message.pause ∷ []), at rest ending))
    × (read_message codec (at [] closed) ≡ (err disconnected, at [] closed))
read_messages-write_messages_example =
    read_messages-write_messages codec (Message.ping ∷ Message.pause ∷ []) (99 ∷ []) (99 ∷ wire)
      written

-- The connection is lost inside the payload.
read_message_truncated_example :
    read_message codec (at (take 9 (frame (1 ∷ 7 ∷ []))) aborted) ≡ (err protocol, at [] aborted)
unfolding frame to_be_bytes
read_message_truncated_example =
    read_message_truncated aborted codec (1 ∷ 7 ∷ []) (omega arith) 9 (omega arith) (omega arith)
