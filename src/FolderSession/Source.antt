-- ===== src/FolderSession/Source.antt =====
-- transfer_folder.rs: what `send` finds at the path that it is given, and `scan_folder`. A directory is
-- the entries that `read_dir` lists; a name is UTF-8. A failing read of a directory is not modelled.
pub mod Scan
pub mod Runs
use Prim.Native.String.{String, ◌++◌ as ◌<>◌}
use p2pfile_transfer.Common.{ℕ, zero, suc, ◌+◌, List, [], ◌∷◌, ◌++◌, replicate, Option, none, some}
use p2pfile_transfer.Common.Text.{utf8}
use p2pfile_transfer.Errors.{Result, ok, err, panic, ◌>>=◌}
use p2pfile_transfer.Protocol.{FileMetadata}
use p2pfile_transfer.Folder.{sanitize_relative_path}

-- The entries of a directory: files with size and time of change, directories, and what is neither.
pub data Entries : Type 0 where
  end : Entries
  file : String → ℕ → ℕ → Entries → Entries
  dir : String → Entries → Entries → Entries
  special : String → Entries → Entries

unfoldable pub metadata_of : String → ℕ → ℕ → FileMetadata
metadata_of path size modified = record {
  path = path;
  size = size;
  modified = modified;
  checksum = replicate 32 0;
}

-- The loop over one directory: the files found, and the directories that join the queue. A relative
-- path that `sanitize_relative_path` refuses ends the scan.
list_dir : String → Entries → Result (List FileMetadata × List (String × Entries))
list_dir path end = ok ([], [])
list_dir path (file name size modified more) =
    sanitize_relative_path (utf8 (path <> "/" <> name)) >>= λ _.
    list_dir path more >>= λ r. ok (metadata_of (path <> "/" <> name) size modified ∷ r.0, r.1)
list_dir path (dir name entries more) =
    list_dir path more >>= λ r. ok (r.0, (path <> "/" <> name, entries) ∷ r.1)
list_dir path (special name more) = list_dir path more

-- The directories at and below these.
unfoldable pub count_dirs : Entries → ℕ
count_dirs end = 0
count_dirs (file name size modified more) = count_dirs more
count_dirs (dir name entries more) = suc (count_dirs entries + count_dirs more)
count_dirs (special name more) = count_dirs more

-- The loop over the queue, on fuel; `none` says that the fuel ran out.
scan_queue : ℕ → List (String × Entries) → Option (Result (List FileMetadata))
unfolding list_dir
scan_queue fuel [] = some (ok [])
scan_queue zero (d ∷ queue) = none
scan_queue (suc fuel) ((path, entries) ∷ queue) = elim (list_dir path entries) [
  | ok (files, dirs) ↦ elim (scan_queue fuel (queue ++ dirs)) [
    | none ↦ none
    | some later ↦ some (later >>= λ rest. ok (files ++ rest))
  ]
  | err e ↦ some (err e)
  | panic ↦ some panic
]

-- One round for each directory is fuel enough.
unfoldable pub scan_folder : String → Entries → Option (Result (List FileMetadata))
unfolding scan_queue
scan_folder name entries = scan_queue (suc (count_dirs entries)) ((name, entries) ∷ [])
