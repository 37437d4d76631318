-- ===== src/FolderSession.antt =====
-- p2p-core/src/transfer_folder.rs: `FolderTransferSession`, which sends or receives the files of a
-- transfer one after another over one connection. The children are its two ends.
pub mod Source
pub mod Sending
pub mod Receiving
pub mod Jobs
pub mod Delivery
pub mod Runs
pub mod ResumedRun
use p2pfile_transfer.Common.{ℕ, ◌%◌, ◌^◌, Bool, true, false, List, [], ◌∷◌, Option, none, some, map}
use p2pfile_transfer.Protocol.{
  Uuid, FileMetadata, ResumePoint, TransferInfo, CompleteMessage, Message,
}
use p2pfile_transfer.Folder.{FolderTransferState, next_file, get_completed_chunks}

-- `as u32`.
abbrev pub as_u32 : ℕ → ℕ
as_u32 n = n % 2 ^ 32

point_at : Uuid → ℕ → List ℕ → Option ResumePoint
point_at transfer_id file_index [] = none
point_at transfer_id file_index (chunk ∷ chunks) = some (record {
  transfer_id = transfer_id;
  file_index = as_u32 file_index;
  completed_chunks = chunk ∷ chunks;
})

resume_at : Uuid → FolderTransferState → Option ℕ → Option ResumePoint
unfolding point_at
resume_at transfer_id s none = none
resume_at transfer_id s (some file_index) =
    point_at transfer_id file_index (get_completed_chunks s file_index)

-- The resume point that `send` names: the next file, if some of its chunks are done.
unfoldable pub resume_point : Uuid → FolderTransferState → Option ResumePoint
unfolding resume_at
resume_point transfer_id s = resume_at transfer_id s (next_file s)

-- The transfer that is announced.
unfoldable pub transfer_info_of : Uuid → Option ResumePoint → FolderTransferState → TransferInfo
transfer_info_of transfer_id resume s = record {
  transfer_id = transfer_id;
  items = s.files;
  resume_from = resume;
  completed_files = map as_u32 s.completed_files;
}

unfoldable pub complete_message : Uuid → ℕ → ℕ → Message
complete_message transfer_id total_bytes duration_ms =
    Message.complete
      (record { transfer_id = transfer_id; total_bytes = total_bytes; duration_ms = duration_ms })
