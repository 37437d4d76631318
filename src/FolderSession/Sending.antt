-- ===== src/FolderSession/Sending.antt =====
-- transfer_folder.rs: `FolderTransferSession::send`. The statistics for display, the progress bar and
-- the check that a file's path has a parent are left out.
pub mod Marks
pub mod Bookkeeping
pub mod Loop
pub mod Resume
pub mod Delivery
pub mod Opening
use Prim.Native.String.{String}
use p2pfile_transfer.Common.{
  ℕ, zero, suc, ◌+◌, ◌≡◌, Bool, true, false, List, [], ◌∷◌, ◌++◌, Option, none, some, length,
  if◌then◌else◌,
}
use p2pfile_transfer.Common.Counting.{contains}
use p2pfile_transfer.Errors.{
  Error, Result, ok, err, panic, protocol, cancelled, disconnected, network, quic,
}
use p2pfile_transfer.Effects.{M, and_then, ◌>>=◌, ◌>>◌, done, fail, lift, modify, gets}
use p2pfile_transfer.Protocol.{Uuid, Digest, FileMetadata, ConfigMessage, Message, ResumePoint}
use p2pfile_transfer.Compression.{Zstd}
use p2pfile_transfer.Handshake.{Conn, send_message, recv_message}
use p2pfile_transfer.Transfer.Sender.{ChunkReader, Sender, open_file, new_sender}
use p2pfile_transfer.Folder.{
  FolderTransferState, new, get_completed_chunks, mark_chunk_complete, mark_file_complete,
  next_file,
}
use p2pfile_transfer.FileExchange.{send_single_file}
use p2pfile_transfer.FolderSession.{as_u32, resume_point, transfer_info_of, complete_message}

-- `streams` are the acknowledged chunk streams of each file, `link` tells of those to come, and
-- `saved` is what the state callback was given.
pub record FolderSender : Type 0 where
  pub conn : Conn
  pub state : FolderTransferState
  pub link : List Bool
  pub streams : List (ℕ × List (List ℕ))
  pub saved : List FolderTransferState

abbrev pub on_conn : {A : Type 0} → M Conn A → M FolderSender A
on_conn m s = ((m s.conn).0, record s { conn = (m s.conn).1 })

-- What stands at the path that is sent: a name and the list of its files, which is what a single file
-- is too, or no file name, or neither a file nor a directory.
pub data Found : Type 0 where
  nameless : Found
  regular : String → FileMetadata → Found
  folder : String → Result (List FileMetadata) → Found
  neither : Found

some_files : String → List FileMetadata → Result (String × List FileMetadata)
some_files name [] = err protocol
some_files name (file ∷ files) = ok (name, file ∷ files)

files_of : Found → Result (String × List FileMetadata)
unfolding some_files
files_of nameless = err protocol
files_of (regular name file) = ok (name, file ∷ [])
files_of (folder name (ok files)) = some_files name files
files_of (folder name (err e)) = err e
files_of (folder name panic) = panic
files_of neither = err protocol

-- The answer to the announcement: a lost connection counts as a rejection.
unfoldable pub await_ready : Result Message → Result (Unit {0})
await_ready (ok Message.ready) = ok tt
await_ready (ok Message.cancel) = err cancelled
await_ready (ok _) = err protocol
await_ready (err disconnected) = err cancelled
await_ready (err network) = err cancelled
await_ready (err quic) = err cancelled
await_ready (err e) = err e
await_ready panic = panic

receive_answer : M FolderSender (Unit {0})
unfolding await_ready
receive_answer s =
    (await_ready (recv_message s.conn).0, record s { conn = (recv_message s.conn).1 })

unfoldable pub path_at : List FileMetadata → ℕ → Option String
path_at [] i = none
path_at (file ∷ files) zero = some file.path
path_at (file ∷ files) (suc i) = path_at files i

-- The calls of the chunk callback.
unfoldable pub mark_all : ℕ → List ℕ → FolderTransferState → FolderTransferState
mark_all file_index [] s = s
mark_all file_index (chunk ∷ chunks) s =
    mark_all file_index chunks (mark_chunk_complete file_index chunk s)

-- What one file's session leaves behind, whether it succeeded or not.
unfoldable pub take_over :
    ℕ → Result (Unit {0}) × (Conn × Sender) → FolderSender → Result (Unit {0}) × FolderSender
take_over file_index (r, (c, t)) s = (
  r,
  record s {
    conn = c;
    link = t.link;
    streams = s.streams ++ ((file_index, t.streams) ∷ []);
    state = mark_all file_index t.marked s.state;
  },
)

-- `mark_file_complete`, `next_file` and the state callback.
unfoldable pub finish_file : ℕ → FolderTransferState → FolderTransferState
finish_file file_index s =
    let marked = mark_file_complete file_index s in
    record marked { current_file = next_file marked }

unfoldable pub record_done : ℕ → FolderSender → FolderSender
record_done file_index s = record s {
  state = finish_file file_index s.state;
  saved = s.saved ++ (finish_file file_index s.state ∷ []);
}

-- A new transfer starts where the state names no files.
unfoldable pub begin :
    Uuid → ConfigMessage → Found → FolderTransferState → Result FolderTransferState
unfolding files_of
begin transfer_id config found s = elim (s.files) [
  | [] ↦ elim (files_of found) [
    | ok (name, files) ↦ ok (new transfer_id name files config)
    | err e ↦ err e
    | panic ↦ panic
  ]
  | file ∷ files ↦ ok s
]

begin_at : Result FolderTransferState → M FolderSender (Unit {0})
begin_at (ok state) s = (ok tt, record s { state = state })
begin_at (err e) s = (err e, s)
begin_at panic s = (panic, s)

-- `disk` gives the content of a file below the base path, or the error of opening it.
module _ (z : Zstd) (sha256 : List ℕ → Digest) (disk : Option String → Result (List ℕ))
    (config : ConfigMessage) (transfer_id : Uuid) where
  send_opened : ℕ → Result ChunkReader → M FolderSender (Unit {0})
  unfolding take_over
  send_opened file_index (err e) s = (err e, s)
  send_opened file_index panic s = (panic, s)
  send_opened file_index (ok reader) s =
      take_over file_index
        (send_single_file z sha256 transfer_id (as_u32 file_index)
          (get_completed_chunks s.state file_index) (s.conn, new_sender reader config s.link))
        s

  opened_at : Result (List ℕ) → Result ChunkReader
  opened_at (ok content) = open_file content config.chunk_size
  opened_at (err e) = err e
  opened_at panic = panic

  -- The body of the loop.
  unfoldable pub send_next : ℕ → M FolderSender (Unit {0})
  unfolding send_opened opened_at record_done
  send_next file_index s =
      if contains s.state.completed_files file_index
      then (ok tt, s)
      else and_then (send_opened file_index (opened_at (disk (path_at s.state.files file_index))) s)
          (λ _. modify (record_done file_index))

  unfoldable pub send_files : ℕ → ℕ → M FolderSender (Unit {0})
  send_files zero file_index = done tt
  send_files (suc rounds) file_index = do send_next file_index; send_files rounds (file_index + 1)

  -- A resumed transfer names its resume point; a new one has none.
  unfoldable pub named_point : FolderTransferState → Option ResumePoint
  named_point s = elim (s.files) [ [] ↦ none | file ∷ files ↦ resume_point transfer_id s ]

  unfoldable pub announce : Found → M FolderSender (Unit {0})
  unfolding begin begin_at named_point receive_answer
  announce found s = and_then (begin_at (begin transfer_id config found s.state) s) (λ _. do
    state ← gets (λ t. t.state)
    on_conn (
        send_message
          (Message.transfer_info (transfer_info_of transfer_id (named_point s.state) state)))
    receive_answer)

  -- What follows the peer's `Ready`. `duration_ms` is what the clock says.
  unfoldable pub send_all : ℕ → M FolderSender (Unit {0})
  send_all duration_ms = do
    total_files ← gets (λ s. length s.state.files)
    send_files total_files 0
    total_bytes ← gets (λ s. s.state.total_bytes)
    on_conn (send_message (complete_message transfer_id total_bytes duration_ms))

  unfoldable pub send : Found → ℕ → M FolderSender (Unit {0})
  send found duration_ms = do announce found; send_all duration_ms
