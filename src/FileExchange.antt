-- ===== src/FileExchange.antt =====
-- p2p-core/src/transfer_folder.rs: `send_single_file` and `receive_single_file`, which send one file over
-- the chunk streams and compare the checksums of both ends over the control stream. The state is the
-- connection and the end's file session.
pub mod Agreement
pub mod Delivery
pub mod Runs
use p2pfile_transfer.Common.{ℕ, Bool, true, false, List, ◌==◌, bytes_eq, if◌then◌else◌}
use p2pfile_transfer.Errors.{Result, ok, err, protocol, verification}
use p2pfile_transfer.Effects.{M, and_then, ◌>>=◌, ◌>>◌, lift}
use p2pfile_transfer.Protocol.{Uuid, Digest, Message, ConfigMessage, FileChecksumMessage}
use p2pfile_transfer.Compression.{Zstd}
use p2pfile_transfer.Handshake.{Conn, send_message, recv_message}
use p2pfile_transfer.Transfer.Sender.{Sender, send_file}
use p2pfile_transfer.Transfer.Receiver.{Receiver, receive_file}

abbrev pub on_conn : {S A : Type 0} → M Conn A → M (Conn × S) A
on_conn m (c, s) = ((m c).0, ((m c).1, s))

abbrev pub on_file : {S A : Type 0} → M S A → M (Conn × S) A
on_file m (c, s) = ((m s).0, (c, (m s).1))

abbrev pub checksum_message : Uuid → ℕ → Digest → Message
checksum_message transfer_id file_index checksum =
    Message.file_checksum
      (record { transfer_id = transfer_id; file_index = file_index; checksum = checksum })

-- The sender takes the checksum of any file; the receiver looks at the file's number.
abbrev pub expect_checksum : Message → Result FileChecksumMessage
expect_checksum (Message.file_checksum m) = ok m
expect_checksum _ = err protocol

abbrev pub same_index : ℕ → FileChecksumMessage → Result (Unit {0})
same_index file_index m = if m.file_index == file_index then ok tt else err protocol

abbrev pub same_checksum : Digest → Digest → Result (Unit {0})
same_checksum theirs ours = if bytes_eq theirs ours then ok tt else err verification

module _ (z : Zstd) (sha256 : List ℕ → Digest) (transfer_id : Uuid) (file_index : ℕ) where
  unfoldable pub send_single_file : List ℕ → M (Conn × Sender) (Unit {0})
  send_single_file completed = do
    ours ← on_file (send_file z sha256 completed)
    on_conn (send_message (checksum_message transfer_id file_index ours))
    message ← on_conn recv_message
    theirs ← lift (expect_checksum message)
    lift (same_checksum theirs.checksum ours)

  unfoldable pub receive_single_file :
      ConfigMessage → ℕ → ℕ → List (Result (List ℕ)) → M (Conn × Receiver) (Unit {0})
  receive_single_file config total_chunks streams_to_receive arrivals = do
    ours ← on_file (receive_file z config sha256 total_chunks streams_to_receive arrivals)
    on_conn (send_message (checksum_message transfer_id file_index ours))
    message ← on_conn recv_message
    theirs ← lift (expect_checksum message)
    lift (same_index file_index theirs)
    lift (same_checksum theirs.checksum ours)
