-- ===== src/Folder/Runs.antt =====
-- transfer_folder.rs: the theorems at concrete inputs.
use p2pfile_transfer.Common.{
  ℕ, ◌≡◌, ◌≢◌, ◌↔◌, refl, true, false, List, [], ◌∷◌, some, arith, All, map, replicate, bytes_eq,
}
use p2pfile_transfer.Common.Counting.{contains}
use p2pfile_transfer.Errors.{ok}
use p2pfile_transfer.Protocol.{FileMetadata, default_config}
use p2pfile_transfer.Folder.{
  FolderTransferState, normal, new, is_absolute, components, sanitize_relative_path,
  mark_file_complete, next_file, is_complete, split, push, components_of, component, add, clean,
  non_empty, first_missing,
}
use p2pfile_transfer.Folder.Paths.{
  IsName, sanitize_relative_path_iff, sanitize_relative_path-IsName,
}
use p2pfile_transfer.Folder.Progress.{Valid, new-Valid, mark_file_complete-Valid}

-- `a/./b`
abbrev path : List ℕ
path = 97 ∷ 47 ∷ 46 ∷ 47 ∷ 98 ∷ []

abbrev parts : List (List ℕ)
parts = (97 ∷ []) ∷ (98 ∷ []) ∷ []

path_taken : sanitize_relative_path path ≡ ok parts
unfolding sanitize_relative_path components is_absolute split push components_of component add clean
    non_empty bytes_eq
path_taken = refl

sanitize_relative_path_iff_example :
    (sanitize_relative_path path ≡ ok parts)
    ↔ ((is_absolute path ≡ false) × (components path ≡ map normal parts) × (parts ≢ []))
sanitize_relative_path_iff_example = sanitize_relative_path_iff path parts

sanitize_relative_path-IsName_example : (All IsName parts) × (parts ≢ [])
sanitize_relative_path-IsName_example = sanitize_relative_path-IsName path parts path_taken

abbrev file : ℕ → FileMetadata
file size = record { path = "a"; size = size; modified = 0; checksum = replicate 32 0 }

abbrev state : FolderTransferState
state = new 9 "folder" (file 100 ∷ file 200 ∷ []) default_config

state-Valid : Valid state
state-Valid = new-Valid 9 "folder" (file 100 ∷ file 200 ∷ []) default_config

abbrev finished : FolderTransferState
finished = mark_file_complete 1 (mark_file_complete 0 state)

finished-Valid : Valid finished
unfolding new mark_file_complete contains
finished-Valid =
    mark_file_complete-Valid (mark_file_complete 0 state)
      (mark_file_complete-Valid state state-Valid 0 (omega arith)) 1 (omega arith)

complete : is_complete finished ≡ true
unfolding new mark_file_complete contains is_complete
complete = refl

halfway : next_file (mark_file_complete 0 state) ≡ some 1
unfolding new mark_file_complete contains next_file first_missing
halfway = refl
