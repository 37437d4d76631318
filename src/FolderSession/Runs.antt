-- ===== src/FolderSession/Runs.antt =====
-- transfer_folder.rs: a folder sent and received, and the theorems at concrete inputs.
use Prim.Native.String.{String}
use text.Mathlib.Text.{◌==◌}
use p2pfile_transfer.Common.{
  ℕ, ◌≡◌, refl, false, List, [], ◌∷◌, ◌++◌, Option, some, none, arith, map, replicate, length,
  bytes_eq, if◌then◌else◌,
}
use p2pfile_transfer.Common.Counting.{contains}
use p2pfile_transfer.Common.Maps.{get, insert, remove}
use p2pfile_transfer.Errors.{Result, ok, err, network}
use p2pfile_transfer.Protocol.{Digest, FileMetadata, Message}
use p2pfile_transfer.Compression
use p2pfile_transfer.Compression.{compress}
use p2pfile_transfer.Common.Bytes.{to_le_bytes, from_le_bytes}
use p2pfile_transfer.Common.Text.{utf8}
use p2pfile_transfer.Handshake.{send_message, recv_message}
use p2pfile_transfer.Transfer.{
  chunk_count, validate_file_size, chunk_stream, stream_index, stream_flags, stream_payload,
  is_compressed,
}
use p2pfile_transfer.Transfer.Disk.{open_partial, write_chunk, write_at}
use p2pfile_transfer.Transfer.Sender.{
  open_file, new_sender, new_compressor, send_file, send_chunks, send_chunk, read_chunk, fold_chunk,
  send_chunk_stream,
}
use p2pfile_transfer.Transfer.Receiver.{
  new_receiver, well, unpack, receive_stream, receive_loop, receive_file, streams_left,
}
use p2pfile_transfer.Handshake.Agreement.{Wire, conn}
use p2pfile_transfer.Folder.{
  FolderTransferState, new, get_completed_chunks, next_file, mark_chunk_complete,
  mark_file_complete, sanitize_relative_path, is_absolute, components, total_size, size_at,
}
use p2pfile_transfer.FileExchange.{checksum_message, send_single_file, receive_single_file}
use p2pfile_transfer.Transfer.Runs.{toy_zstd, config, file}
use p2pfile_transfer.FolderSession.{resume_point, transfer_info_of, complete_message}
use p2pfile_transfer.FolderSession.Sending.{
  FolderSender, folder, send, mark_all, announce, send_all, send_files, send_next, named_point,
  await_ready, path_at, finish_file,
}
use p2pfile_transfer.FolderSession.Sending.Bookkeeping.{Resumable, mark_all-Resumable}
use p2pfile_transfer.FolderSession.Sending.Resume.{new-Resumable, SendOutcome, send-SendOutcome}
use p2pfile_transfer.FolderSession.Receiving.{
  path_key, FolderReceiver, accept, receive_folder, skips, already_sent, TransferSummary, suffix,
  validate_files, receive_accepted, already_transferred, receive_files, receive_next, receive_at,
  paths_eq, partial_path, first_path, file_at, sizes_before, settle,
}
use p2pfile_transfer.FolderSession.Receiving.Plan.{resume_agreement}
use p2pfile_transfer.FolderSession.Receiving.Safety.{Confined, receive_folder-Confined}

abbrev pub sha256 : List ℕ → Digest
sha256 bytes = bytes

abbrev pub disk : Option String → Result (List ℕ)
disk none = err network
disk (some path) =
    if path == "d/a" then ok file else if path == "d/a.partial" then ok (7 ∷ []) else err network

abbrev metadata : String → ℕ → FileMetadata
metadata path size = record { path = path; size = size; modified = 0; checksum = replicate 32 0 }

abbrev pub files : List FileMetadata
files = metadata "d/a.partial" 1 ∷ metadata "d/a" 5 ∷ []

abbrev empty : FolderTransferState
empty = new 9 "" [] config

-- Every message is one byte long.
abbrev pub short : Digest → Wire
short seen = record { to_vec = λ m. some (0 ∷ []); seen = seen }

abbrev sender : FolderSender
sender = record {
  conn =
      conn (Message.ready ∷ checksum_message 9 0 (7 ∷ []) ∷ checksum_message 9 1 file ∷ [])
        (short (4 ∷ []));
  state = empty;
  link = [];
  streams = [];
  saved = [];
}

send-SendOutcome_example :
    SendOutcome (send toy_zstd sha256 disk config 9 (folder "d" (ok files)) 3 sender)
send-SendOutcome_example =
    send-SendOutcome toy_zstd sha256 disk config 9 (folder "d" (ok files)) 3 sender
      (new-Resumable 9 "" [] config)

-- Chunk 0 of the first file is done.
abbrev halfway : FolderTransferState
halfway = mark_all 0 (0 ∷ []) (new 9 "d" files config)

halfway-Resumable : Resumable halfway
unfolding next_file new contains get_completed_chunks get
halfway-Resumable =
    mark_all-Resumable 0 (0 ∷ []) (new 9 "d" files config) (new-Resumable 9 "d" files config) refl
      (refl, tt) (refl, tt)

resume_agreement_example :
    (skips (transfer_info_of 9 (resume_point 9 halfway) halfway) 0
      ≡ contains halfway.completed_files 0)
    × (contains halfway.completed_files 0 ≡ false
        → already_sent 0 (transfer_info_of 9 (resume_point 9 halfway) halfway).resume_from
          ≡ length (get_completed_chunks halfway 0))
unfolding mark_all new mark_chunk_complete
resume_agreement_example =
    resume_agreement 9 halfway halfway-Resumable (omega arith) 0 (omega arith)

abbrev all_streams : List (ℕ × List (List ℕ)) → List (Result (List ℕ))
all_streams [] = []
all_streams ((i, streams) ∷ more) = map ok streams ++ all_streams more

abbrev sent : Result (Unit {0}) × FolderSender
sent = send toy_zstd sha256 disk config 9 (folder "d" (ok files)) 3 sender

-- What the sender sent arrives.
abbrev receiver : FolderReceiver
receiver = record {
  conn = conn sent.1.conn.sent (short (5 ∷ []));
  disk = [];
  arrivals = all_streams sent.1.streams;
  closing = λ i. well;
}

abbrev received : Result TransferSummary × FolderReceiver
received = receive_folder toy_zstd sha256 config (λ info. accept) receiver

-- `d/a.partial`, which was sent whole, is taken for the leftover of `d/a`, and is gone when that file
-- has been received; both ends report success.
partial_lost :
    (sent.0 ≡ ok tt)
    × (received.0
        ≡ ok (record {
          root_name = some "d/a.partial";
          files = "d/a.partial" ∷ "d/a" ∷ [];
          bytes = 6;
        }))
    × (get received.1.disk ((100 ∷ []) ∷ (97 ∷ []) ∷ []) ≡ some file)
    × (get received.1.disk ((100 ∷ []) ∷ (97 ∷ suffix) ∷ []) ≡ none)
unfolding send announce send_all send_files send_next named_point new await_ready send_message
    recv_message get_completed_chunks get insert send_single_file open_file chunk_count new_sender
    new_compressor send_file send_chunks send_chunk read_chunk fold_chunk send_chunk_stream contains
    chunk_stream to_le_bytes compress Compression.new bytes_eq path_at mark_all mark_chunk_complete
    mark_file_complete next_file finish_file total_size size_at transfer_info_of resume_point
    complete_message remove receive_folder validate_files validate_file_size receive_accepted
    already_transferred receive_files receive_next skips already_sent sanitize_relative_path
    is_absolute components utf8 receive_at receive_single_file streams_left receive_file
    receive_loop receive_stream stream_index from_le_bytes stream_flags stream_payload is_compressed
    unpack open_partial write_chunk write_at new_receiver paths_eq partial_path first_path file_at
    sizes_before settle
partial_lost = (refl, refl, refl, refl)

receive_folder-Confined_example :
    Confined receiver.disk (receive_folder toy_zstd sha256 config (λ info. accept) receiver).1.disk
receive_folder-Confined_example =
    receive_folder-Confined toy_zstd sha256 config (λ info. accept) receiver
