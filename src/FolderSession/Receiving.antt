-- ===== src/FolderSession/Receiving.antt =====
-- transfer_folder.rs: `FolderTransferSession::receive_folder`. The directory tree below the output
-- directory is the list of its regular files by their relative paths; that directories can be created is
-- taken for granted. The progress bar, the statistics and the state file, which is only read for a log
-- line, are left out.
pub mod Plan
pub mod Safety
pub mod Arrival
pub mod Delivery
use p2pfile_transfer.Common.{
  ℕ, zero, suc, ◌+◌, ◌-◌, ◌*◌, ◌%◌, ◌^◌, ◌≡◌, refl, ap, Bool, true, false, ◌&&◌, List, [], ◌∷◌,
  ◌++◌, Option, none, some, length, map, min, ltb, ◌==◌, if◌then◌else◌, bytes_eq, bytes_eq→eq,
  bytes_eq_refl, arith,
}
use Prim.Native.String.{String}
use p2pfile_transfer.Common.Counting.{contains}
use p2pfile_transfer.Common.Maps.{Key, get, insert, remove}
use p2pfile_transfer.Common.Text.{utf8}
use p2pfile_transfer.Errors.{Result, ok, err, panic, protocol, network}
use p2pfile_transfer.Effects.{M, and_then, ◌>>=◌, ◌>>◌, done, fail, lift, modify, gets}
use p2pfile_transfer.Protocol.{
  Uuid, Digest, FileMetadata, ConfigMessage, Message, ResumePoint, TransferInfo,
}
use p2pfile_transfer.Compression.{Zstd}
use p2pfile_transfer.Handshake.{Conn, send_message, recv_message, expect_transfer_info}
use p2pfile_transfer.Transfer.{u64_mod, chunk_count, validate_file_size}
use p2pfile_transfer.Transfer.Receiver.{Closing, Receiver, new_receiver, streams_left}
use p2pfile_transfer.Folder.{sanitize_relative_path, total_size}
use p2pfile_transfer.FileExchange.{receive_single_file}
use p2pfile_transfer.FolderSession.{as_u32}

-- A relative path is the list of its parts.
abbrev pub RelativePath : Type 0
RelativePath = List (List ℕ)

unfoldable pub paths_eq : RelativePath → RelativePath → Bool
paths_eq [] [] = true
paths_eq [] (y ∷ ys) = false
paths_eq (x ∷ xs) [] = false
paths_eq (x ∷ xs) (y ∷ ys) = bytes_eq x y && paths_eq xs ys

pub paths_eq→eq : (xs ys : RelativePath) → paths_eq xs ys ≡ true → xs ≡ ys
unfolding paths_eq
paths_eq→eq [] [] e = refl
paths_eq→eq [] (y ∷ ys) e = cc
paths_eq→eq (x ∷ xs) [] e = cc
paths_eq→eq (x ∷ xs) (y ∷ ys) e = ground (arith, bytes_eq→eq x y, paths_eq→eq xs ys, e)

pub paths_eq_refl : (xs : RelativePath) → paths_eq xs xs ≡ true
unfolding paths_eq
paths_eq_refl [] = refl
paths_eq_refl (x ∷ xs) = ground (arith, bytes_eq_refl x, paths_eq_refl xs)

instance abbrev pub path_key : Key RelativePath
path_key = record { same = paths_eq; same→eq = paths_eq→eq; same_refl = paths_eq_refl }

-- `.partial`
abbrev pub suffix : List ℕ
suffix = 46 ∷ 112 ∷ 97 ∷ 114 ∷ 116 ∷ 105 ∷ 97 ∷ 108 ∷ []

-- Where `ChunkWriter::new` puts the bytes of a file that is not whole.
unfoldable pub partial_path : RelativePath → RelativePath
partial_path [] = []
partial_path (name ∷ []) = (name ++ suffix) ∷ []
partial_path (name ∷ next ∷ path) = name ∷ partial_path (next ∷ path)

unfoldable pub or_empty : Option (List ℕ) → List ℕ
or_empty none = []
or_empty (some content) = content

-- `arrivals` are the chunk streams to come, `closing` says how the calls on a file go when it is
-- finished, by the file's number.
pub record FolderReceiver : Type 0 where
  pub conn : Conn
  pub disk : List (RelativePath × List ℕ)
  pub arrivals : List (Result (List ℕ))
  pub closing : ℕ → Closing

abbrev pub on_conn : {A : Type 0} → M Conn A → M FolderReceiver A
on_conn m s = ((m s.conn).0, record s { conn = (m s.conn).1 })

pub record TransferSummary : Type 0 where
  pub root_name : Option String
  pub files : List String
  pub bytes : ℕ

abbrev pub no_summary : TransferSummary
no_summary = record { root_name = none; files = []; bytes = 0 }

pub data AcceptDecision : Type 0 where
  accept reject : AcceptDecision

unfoldable pub first_path : List FileMetadata → Option String
first_path [] = none
first_path (file ∷ files) = some file.path

unfoldable pub validate_files : List FileMetadata → Result (Unit {0})
validate_files [] = ok tt
validate_files (file ∷ files) = elim (validate_file_size file.size) [
  | ok _ ↦ validate_files files
  | err e ↦ err e
  | panic ↦ panic
]

unfoldable pub some_items : TransferInfo → Result (Unit {0})
some_items info = elim (info.items) [ [] ↦ err protocol | file ∷ files ↦ ok tt ]

-- The `for` loop over the files in front of the resume point. The u64 sum wraps.
unfoldable pub sizes_before : ℕ → List FileMetadata → ℕ
sizes_before n [] = 0
sizes_before zero (file ∷ files) = 0
sizes_before (suc n) (file ∷ files) = (file.size + sizes_before n files) % u64_mod

unfoldable pub file_at : List FileMetadata → ℕ → Option FileMetadata
file_at [] i = none
file_at (file ∷ files) zero = some file
file_at (file ∷ files) (suc i) = file_at files i

module _ (config : ConfigMessage) where
  -- The part of the resumed file that is there.
  resumed_part : List ℕ → Option FileMetadata → Result ℕ
  resumed_part completed none = ok 0
  resumed_part completed (some file) = elim (chunk_count file.size config.chunk_size) [
    | ok total_chunks ↦ ok (
        if ltb (length completed) total_chunks
        then length completed * config.chunk_size % u64_mod
        else file.size)
    | err e ↦ err e
    | panic ↦ panic
  ]

  add_part : ℕ → Result ℕ → Result ℕ
  add_part before (ok part) = ok ((before + part) % u64_mod)
  add_part before (err e) = err e
  add_part before panic = panic

  unfoldable pub already_transferred : List FileMetadata → Option ResumePoint → Result ℕ
  unfolding resumed_part add_part
  already_transferred items none = ok 0
  already_transferred items (some point) =
      add_part (sizes_before point.file_index items)
        (resumed_part point.completed_chunks (file_at items point.file_index))

unfoldable pub already_sent : ℕ → Option ResumePoint → ℕ
already_sent file_index none = 0
already_sent file_index (some point) =
    if point.file_index == file_index then length point.completed_chunks else 0

-- Whether the sender said that it had sent the file before.
unfoldable pub skips : TransferInfo → ℕ → Bool
skips info file_index = contains info.completed_files (as_u32 file_index)

-- The file's `.partial`, or the file itself once it has been renamed.
unfoldable pub settle :
    RelativePath → Receiver → List (RelativePath × List ℕ) → List (RelativePath × List ℕ)
settle path r disk = elim (r.finished) [
  | none ↦ insert disk (partial_path path) r.writer.content
  | some content ↦ insert (remove disk (partial_path path)) path content
]

module _ (z : Zstd) (sha256 : List ℕ → Digest) (config : ConfigMessage) where
  module _ (transfer_id : Uuid) where
    -- One file into the output directory.
    unfoldable pub receive_at : ℕ → ℕ → ℕ → RelativePath → M FolderReceiver (Unit {0})
    unfolding settle or_empty
    receive_at file_index total_chunks streams_to_receive path s =
        let r =
          new_receiver (s.closing file_index) config (or_empty (get s.disk (partial_path path))) in
        let p =
          receive_single_file z sha256 transfer_id (as_u32 file_index) config total_chunks
            streams_to_receive s.arrivals (s.conn, r) in
        (
          p.0,
          record s {
            conn = p.1.0;
            disk = settle path p.1.1 s.disk;
            arrivals = streams_left z config total_chunks streams_to_receive s.arrivals r;
          },
        )

    -- The body of the loop.
    unfoldable pub receive_next : TransferInfo → ℕ → FileMetadata → M FolderReceiver (Unit {0})
    receive_next info file_index file s =
        if skips info file_index
        then (ok tt, s)
        else and_then (lift (sanitize_relative_path (utf8 file.path)) s) (λ path. do
          total_chunks ← lift (chunk_count file.size config.chunk_size)
          receive_at file_index total_chunks
              (total_chunks - already_sent file_index info.resume_from) path)

    unfoldable pub receive_files :
        TransferInfo → ℕ → List FileMetadata → M FolderReceiver (Unit {0})
    receive_files info file_index [] = done tt
    receive_files info file_index (file ∷ files) = do
      receive_next info file_index file
      receive_files info (file_index + 1) files

  -- Behind the policy's decision. A message other than `Complete` at the end is only logged.
  unfoldable pub receive_accepted : TransferInfo → M FolderReceiver TransferSummary
  receive_accepted info = do
    before ← lift (already_transferred config info.items info.resume_from)
    on_conn (send_message Message.ready)
    receive_files info.transfer_id info 0 info.items
    message ← on_conn recv_message
    done (record {
      root_name = first_path info.items;
      files = map (λ file. file.path) info.items;
      bytes = total_size info.items - before;
    })

  rejected : M FolderReceiver TransferSummary
  rejected = do on_conn (send_message Message.cancel); done no_summary

  unfoldable pub decide : AcceptDecision → TransferInfo → M FolderReceiver TransferSummary
  unfolding rejected
  decide accept info = receive_accepted info
  decide reject info = rejected

  unfoldable pub receive_folder : (TransferInfo → AcceptDecision) → M FolderReceiver TransferSummary
  unfolding decide some_items
  receive_folder accept_decision = do
    message ← on_conn recv_message
    info ← lift (expect_transfer_info message)
    lift (some_items info)
    lift (validate_files info.items)
    decide (accept_decision info) info
