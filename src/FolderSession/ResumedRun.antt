-- ===== src/FolderSession/ResumedRun.antt =====
-- transfer_folder.rs: a folder of two files that is resumed with the first complete and a chunk of the
-- second there.
use Prim.Native.String.{String}
use text.Mathlib.Text.{◌==◌}
use p2pfile_transfer.Common.{
  ℕ, ◌≡◌, ◌≢◌, refl, inl, inr, List, [], ◌∷◌, Option, some, none, arith, replicate, All,
  if◌then◌else◌, bytes_eq,
}
use p2pfile_transfer.Common.Counting.{contains}
use p2pfile_transfer.Common.Maps.{get, insert}
use p2pfile_transfer.Common.Text.{utf8}
use p2pfile_transfer.Errors.{Result, ok, err, network}
use p2pfile_transfer.Protocol.{Digest, FileMetadata, Message}
use p2pfile_transfer.Compression
use p2pfile_transfer.Compression.{compress}
use p2pfile_transfer.Common.Bytes.{to_le_bytes}
use p2pfile_transfer.Handshake.Agreement.{Fits, talking}
use p2pfile_transfer.Transfer.{validate_file_size, chunk_stream}
use p2pfile_transfer.Transfer.Sender.{
  new_sender, new_compressor, send_file, send_chunks, send_chunk, read_chunk, fold_chunk,
  send_chunk_stream,
}
use p2pfile_transfer.Folder.{
  FolderTransferState, new, get_completed_chunks, next_file, mark_chunk_complete,
  mark_file_complete, sanitize_relative_path, is_absolute, components,
}
use p2pfile_transfer.Transfer.Runs.{
  toy_zstd, config, file, reader, leftover, run, prepared, run_ok, streams_fit,
}
use p2pfile_transfer.FileExchange.{checksum_message}
use p2pfile_transfer.FolderSession.{complete_message}
use p2pfile_transfer.FolderSession.Jobs.{Apart, Job, Jobs, checksums, arrived, places, InPlace}
use p2pfile_transfer.FolderSession.Sending.{
  FolderSender, neither, begin, send, mark_all, finish_file,
}
use p2pfile_transfer.FolderSession.Sending.Bookkeeping.{
  Resumable, mark_all-Resumable, finish_file-Resumable,
}
use p2pfile_transfer.FolderSession.Sending.Resume.{new-Resumable}
use p2pfile_transfer.FolderSession.Receiving.{
  RelativePath, path_key, FolderReceiver, TransferSummary, accept, receive_folder, paths_eq,
  partial_path, suffix, validate_files, or_empty,
}
use p2pfile_transfer.FolderSession.Delivery.{sending, receiving, info, folder_arrives}

abbrev sha256 : List ℕ → Digest
sha256 bytes = bytes

abbrev disk : Option String → Result (List ℕ)
disk none = err network
disk (some path) = if path == "d/a" then ok file else err network

abbrev metadata : String → ℕ → FileMetadata
metadata path size = record { path = path; size = size; modified = 0; checksum = replicate 32 0 }

abbrev files : List FileMetadata
files = metadata "d/z" 3 ∷ metadata "d/a" 5 ∷ []

abbrev fresh : FolderTransferState
fresh = new 9 "d" files config

-- What an earlier run has left.
abbrev state : FolderTransferState
state = mark_all 1 (1 ∷ []) (finish_file 0 fresh)

state-Resumable : Resumable state
unfolding next_file new contains get_completed_chunks get finish_file mark_file_complete
state-Resumable =
    mark_all-Resumable 1 (1 ∷ []) (finish_file 0 fresh)
      (finish_file-Resumable 0 fresh (new-Resumable 9 "d" files config) refl) refl (refl, tt)
      (refl, tt)

abbrev path : RelativePath
path = (100 ∷ []) ∷ (97 ∷ []) ∷ []

abbrev before : List (RelativePath × List ℕ)
before = ((100 ∷ []) ∷ (97 ∷ suffix) ∷ [], leftover) ∷ []

job : Job toy_zstd sha256 disk config 9 before (get_completed_chunks state 1) (metadata "d/a" 5)
unfolding new contains get_completed_chunks get insert finish_file mark_file_complete mark_all
    mark_chunk_complete sanitize_relative_path is_absolute components utf8 bytes_eq partial_path
    paths_eq or_empty send_file send_chunks send_chunk read_chunk fold_chunk send_chunk_stream
    new_sender new_compressor chunk_stream to_le_bytes compress Compression.new
job = record {
  path = path;
  content = file;
  reader = reader;
  digest = file;
  run = run.1;
  arrivals = run.1.streams;
  safe = refl;
  stands = refl;
  sized = refl;
  prepared = prepared;
  sent = run_ok;
  holds = refl;
  limit = streams_fit;
  delivery = record { genuine = λ raw o. o; complete = λ raw o. o };
  once = refl;
}

abbrev jobs : Jobs toy_zstd sha256 disk config 9 before state 0 state.files
unfolding new contains finish_file mark_file_complete mark_all mark_chunk_complete
jobs = (inl refl, (inr (refl, job), tt))

places-Apart : Apart (places toy_zstd sha256 disk config 9 before state 0 state.files jobs)
unfolding new contains finish_file mark_file_complete mark_all mark_chunk_complete job partial_path
places-Apart = ((λ e. cc, tt), (tt, tt))

-- Every message is one byte long.
abbrev short : Message → Option (List ℕ)
short message = some (0 ∷ [])

fits : (message : Message) → Fits short message
fits message = (0 ∷ [], refl, omega arith)

folder_arrives_example :
    let checks = checksums toy_zstd sha256 disk config 9 before state 0 state.files jobs in
    let arrivals = arrived toy_zstd sha256 disk config 9 before state 0 state.files jobs in
    (t : FolderSender) × (sent : List Message) × (send toy_zstd sha256 disk config 9 neither 3 (
        sending toy_zstd sha256 disk config 9 before short
          (4 ∷ [])
          (5 ∷ [])
          state
          (Message.ready ∷ checks))
      ≡ (ok tt, t))
    × (t.conn ≡ talking sent [] (record { to_vec = short; seen = 4 ∷ [] }))
    × (summary : TransferSummary) × (u : FolderReceiver) × (receive_folder toy_zstd sha256 config
          (λ info. accept)
          (receiving toy_zstd sha256 disk config 9 before short (4 ∷ []) (5 ∷ []) sent arrivals)
        ≡ (ok summary, u))
    × (u.conn.sent ≡ Message.ready ∷ checks)
    × InPlace toy_zstd sha256 disk config 9 before state u.disk 0 state.files jobs
    × ((q : RelativePath)
        → All (λ p. p ≢ q) (places toy_zstd sha256 disk config 9 before state 0 state.files jobs)
        → get u.disk q ≡ get before q)
unfolding new finish_file mark_file_complete mark_all mark_chunk_complete contains begin
    validate_files validate_file_size
folder_arrives_example =
    folder_arrives toy_zstd sha256 disk config 9 before short (4 ∷ []) (5 ∷ []) state state neither
      3 jobs state-Resumable refl (λ e. cc) (omega arith) refl (omega arith) places-Apart
      (fits (
        Message.transfer_info
          (info toy_zstd sha256 disk config 9 before short (4 ∷ []) (5 ∷ []) state neither 3)))
      (fits Message.ready) (fits (checksum_message 9 1 file), tt)
      (λ total. fits (complete_message 9 total 3))
