-- ===== src/Folder.antt =====
-- p2p-core/src/transfer_folder.rs: the progress of a folder transfer, and the check of the paths that
-- a peer names. Paths are byte strings, read the way `Path::components` reads them on Unix.
pub mod Paths
pub mod Progress
pub mod Runs
use p2pfile_transfer.Common.{
  ℕ, suc, ◌+◌, ◌*◌, ◌%◌, ◌^◌, ◌≡◌, Bool, true, false, List, [], ◌∷◌, ◌++◌, Option, none, some, ltb,
  ◌==◌, not, bytes_eq, if◌then◌else◌, length, get_elem?, map,
}
use Prim.Native.String.{String}
use p2pfile_transfer.Common.Counting.{contains}
use p2pfile_transfer.Common.Maps.{Key, number_key, get, insert}
use p2pfile_transfer.Errors.{Result, ok, err, protocol, ◌>>=◌}
use p2pfile_transfer.Protocol.{Uuid, FileMetadata, ConfigMessage, ResumePoint}

-- `std::path::Component`.
pub data Component : Type 0 where
  normal : List ℕ → Component
  cur_dir parent_dir root_dir : Component

push : ℕ → List (List ℕ) → List (List ℕ)
push b [] = (b ∷ []) ∷ []
push b (segment ∷ segments) = (b ∷ segment) ∷ segments

-- The segments between slashes.
split : List ℕ → List (List ℕ)
unfolding push
split [] = [] ∷ []
split (b ∷ bytes) = let rest = split bytes in if b == 47 then [] ∷ rest else push b rest

-- An empty segment is none, nor is a `.` behind the first.
component : Bool → List ℕ → Option Component
component first [] = none
component first (b ∷ segment) =
    if bytes_eq (b ∷ segment) (46 ∷ [])
    then (if first then some cur_dir else none)
    else if bytes_eq (b ∷ segment) (46 ∷ 46 ∷ [])
    then some parent_dir
    else some (normal (b ∷ segment))

add : Option Component → List Component → List Component
add none components = components
add (some c) components = c ∷ components

components_of : Bool → List (List ℕ) → List Component
unfolding component add
components_of first [] = []
components_of first (segment ∷ segments) =
    add (component first segment) (components_of false segments)

unfoldable pub is_absolute : List ℕ → Bool
is_absolute [] = false
is_absolute (b ∷ bytes) = b == 47

unfoldable pub components : List ℕ → List Component
unfolding split components_of
components path =
    if is_absolute path
    then root_dir ∷ components_of false (split path)
    else components_of true (split path)

-- The loop over the components.
clean : List Component → Result (List (List ℕ))
clean [] = ok []
clean (normal part ∷ components) = clean components >>= λ parts. ok (part ∷ parts)
clean (_ ∷ components) = err protocol

non_empty : List (List ℕ) → Result (List (List ℕ))
non_empty [] = err protocol
non_empty (part ∷ parts) = ok (part ∷ parts)

-- The result is the relative path as its parts.
unfoldable pub sanitize_relative_path : List ℕ → Result (List (List ℕ))
unfolding clean non_empty
sanitize_relative_path path =
    if is_absolute path then err protocol else (clean (components path) >>= non_empty)

pub record FolderTransferState : Type 0 where
  pub transfer_id : Uuid
  pub folder_name : String
  pub files : List FileMetadata
  pub completed_files : List ℕ
  pub current_file : Option ℕ
  pub total_bytes : ℕ
  pub transferred_bytes : ℕ
  pub file_chunks : List (ℕ × List ℕ)
  pub config : ConfigMessage

-- `sum` on u64.
unfoldable pub total_size : List FileMetadata → ℕ
total_size [] = 0
total_size (file ∷ files) = (file.size + total_size files) % 2 ^ 64

unfoldable pub new : Uuid → String → List FileMetadata → ConfigMessage → FolderTransferState
new transfer_id folder_name files config = record {
  transfer_id = transfer_id;
  folder_name = folder_name;
  files = files;
  completed_files = [];
  current_file = none;
  total_bytes = total_size files;
  transferred_bytes = 0;
  file_chunks = [];
  config = config;
}

or_empty : Option (List ℕ) → List ℕ
or_empty none = []
or_empty (some chunks) = chunks

unfoldable pub get_completed_chunks : FolderTransferState → ℕ → List ℕ
unfolding or_empty
get_completed_chunks s file_index = or_empty (get s.file_chunks file_index)

unfoldable pub mark_chunk_complete : ℕ → ℕ → FolderTransferState → FolderTransferState
unfolding or_empty
mark_chunk_complete file_index chunk_index s = record s {
  file_chunks =
      insert s.file_chunks file_index
        (or_empty (get s.file_chunks file_index) ++ (chunk_index ∷ []));
}

unfoldable pub size_at : List FileMetadata → ℕ → ℕ
size_at [] i = 0
size_at (file ∷ files) ℕ.zero = file.size
size_at (file ∷ files) (suc i) = size_at files i

-- An index behind the end adds no bytes.
unfoldable pub mark_file_complete : ℕ → FolderTransferState → FolderTransferState
mark_file_complete file_index s = if contains s.completed_files file_index then s else record s {
  completed_files = s.completed_files ++ (file_index ∷ []);
  transferred_bytes = (s.transferred_bytes + size_at s.files file_index) % 2 ^ 64;
}

first_missing : List ℕ → ℕ → ℕ → Option ℕ
first_missing completed ℕ.zero i = none
first_missing completed (suc n) i =
    let rest = first_missing completed n (i + 1) in if contains completed i then rest else some i

unfoldable pub next_file : FolderTransferState → Option ℕ
unfolding first_missing
next_file s = first_missing s.completed_files (length s.files) 0

unfoldable pub is_complete : FolderTransferState → Bool
is_complete s = length s.completed_files == length s.files
