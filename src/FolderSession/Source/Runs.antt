-- ===== src/FolderSession/Source/Runs.antt =====
-- transfer_folder.rs: the scan of a folder with a folder in it.
use p2pfile_transfer.Common.{◌≡◌, refl, List, [], ◌∷◌, some, bytes_eq}
use p2pfile_transfer.Common.Text.{utf8}
use p2pfile_transfer.Errors.{Result, ok}
use p2pfile_transfer.Protocol.{FileMetadata}
use p2pfile_transfer.Folder.{sanitize_relative_path, is_absolute, components}
use p2pfile_transfer.FolderSession.Source.{
  Entries, end, file, dir, special, scan_folder, metadata_of, count_dirs,
}
use p2pfile_transfer.FolderSession.Source.Scan.{Scanned, count_files, scan_folder-Scanned}

abbrev tree : Entries
tree = dir "sub" (file "c" 3 0 end) (special "pipe" (file "a" 5 0 end))

found : scan_folder "d" tree ≡ some (ok (metadata_of "d/a" 5 0 ∷ metadata_of "d/sub/c" 3 0 ∷ []))
unfolding scan_folder metadata_of count_dirs sanitize_relative_path is_absolute components utf8
    bytes_eq
found = refl

scan_folder-Scanned_example :
    (r : Result (List FileMetadata)) × (scan_folder "d" tree ≡ some r)
    × Scanned (count_files tree) r
scan_folder-Scanned_example = scan_folder-Scanned "d" tree
