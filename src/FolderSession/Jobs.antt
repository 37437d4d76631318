-- ===== src/FolderSession/Jobs.antt =====
-- transfer_folder.rs: what is to be done of a folder transfer, file by file, and the control messages that
-- go with it.
use Prim.Native.String.{String}
use p2pfile_transfer.Common.{
  ℕ, ◌+◌, ◌-◌, ◌≤◌, ◌≡◌, ◌≢◌, ◌⊎◌, inl, inr, true, false, List, [], ◌∷◌, ◌++◌, Option, some, map,
  length, All,
}
use p2pfile_transfer.Common.Counting.{contains}
use p2pfile_transfer.Common.Maps.{get}
use p2pfile_transfer.Common.Text.{utf8}
use p2pfile_transfer.Errors.{Result, ok}
use p2pfile_transfer.Protocol.{Uuid, Digest, FileMetadata, ConfigMessage, Message}
use p2pfile_transfer.Compression.{Zstd}
use p2pfile_transfer.Transfer.{max_chunk_stream_bytes}
use p2pfile_transfer.Transfer.Sender.{ChunkReader, Sender, new_sender, send_file}
use p2pfile_transfer.Transfer.Exchange.{Prepared, Delivers}
use p2pfile_transfer.Folder.{FolderTransferState, get_completed_chunks, sanitize_relative_path}
use p2pfile_transfer.FileExchange.{checksum_message}
use p2pfile_transfer.FolderSession.{as_u32}
use p2pfile_transfer.FolderSession.Receiving.{RelativePath, path_key, partial_path, or_empty}

-- Paths of which no two are the same.
abbrev pub Apart : List RelativePath → Type 0
Apart [] = Unit {0}
Apart (p ∷ ps) = All (λ q. p ≢ q) ps × Apart ps

-- `disk` has the sender's files, `before` the receiver's.
module _ (z : Zstd) (sha256 : List ℕ → Digest) (disk : Option String → Result (List ℕ))
    (config : ConfigMessage) (transfer_id : Uuid) (before : List (RelativePath × List ℕ)) where
  -- One file on its way: what the sender reads and sends, over a link that holds, and in which order
  -- its streams arrive.
  pub record Job (completed : List ℕ) (file : FileMetadata) : Type 0 where
    pub path : RelativePath
    pub content : List ℕ
    pub reader : ChunkReader
    pub digest : Digest
    pub run : Sender
    pub arrivals : List (List ℕ)
    pub safe : sanitize_relative_path (utf8 file.path) ≡ ok path
    pub stands : disk (some file.path) ≡ ok content
    pub sized : file.size ≡ length content
    pub prepared :
        Prepared z sha256 config content reader completed
          (or_empty (get before (partial_path path)))
    pub sent : send_file z sha256 completed (new_sender reader config []) ≡ (ok digest, run)
    pub holds : run.link ≡ []
    pub limit : All (λ raw. length raw ≤ max_chunk_stream_bytes) run.streams
    pub delivery : Delivers run.streams arrivals
    pub once : length arrivals ≡ reader.total_chunks - length completed

  module _ (s : FolderTransferState) where
    -- Each file from number `i` on is complete or a job.
    abbrev pub Jobs : ℕ → List FileMetadata → Type 0
    Jobs i [] = Unit {0}
    Jobs i (file ∷ files) =
        ((contains s.completed_files i ≡ true)
          ⊎ ((contains s.completed_files i ≡ false) × Job (get_completed_chunks s i) file))
        × Jobs (i + 1) files

    -- The checksum messages, which both ends send.
    abbrev pub checksums : (i : ℕ) (files : List FileMetadata) → Jobs i files → List Message
    checksums i [] jobs = []
    checksums i (file ∷ files) (inl old, jobs) = checksums (i + 1) files jobs
    checksums i (file ∷ files) (inr (new, job), jobs) =
        checksum_message transfer_id (as_u32 i) job.digest ∷ checksums (i + 1) files jobs

    -- The streams in the order in which they arrive.
    abbrev pub arrived : (i : ℕ) (files : List FileMetadata) → Jobs i files → List (Result (List ℕ))
    arrived i [] jobs = []
    arrived i (file ∷ files) (inl old, jobs) = arrived (i + 1) files jobs
    arrived i (file ∷ files) (inr (new, job), jobs) =
        map ok job.arrivals ++ arrived (i + 1) files jobs

    -- Where the receiver writes.
    abbrev pub places : (i : ℕ) (files : List FileMetadata) → Jobs i files → List RelativePath
    places i [] jobs = []
    places i (file ∷ files) (inl old, jobs) = places (i + 1) files jobs
    places i (file ∷ files) (inr (new, job), jobs) =
        job.path ∷ partial_path job.path ∷ places (i + 1) files jobs

    -- Every file that was not complete is in its place.
    abbrev pub InPlace :
        List (RelativePath × List ℕ) → (i : ℕ) (files : List FileMetadata) → Jobs i files → Type 0
    InPlace after i [] jobs = Unit {0}
    InPlace after i (file ∷ files) (inl old, jobs) = InPlace after (i + 1) files jobs
    InPlace after i (file ∷ files) (inr (new, job), jobs) =
        (get after job.path ≡ some job.content) × InPlace after (i + 1) files jobs
