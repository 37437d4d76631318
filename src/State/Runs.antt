-- ===== src/State/Runs.antt =====
-- state.rs: the theorems at concrete inputs.
use p2pfile_transfer.Common.{
  ◌≡◌, refl, true, false, Bool, List, [], ◌∷◌, some, none, All, replicate,
}
use p2pfile_transfer.Errors.{ok, ◌>>=◌}
use p2pfile_transfer.Protocol.{FileMetadata}
use p2pfile_transfer.Transfer.{chunk_count}
use p2pfile_transfer.Folder.{total_size}
use p2pfile_transfer.State.{
  in_progress, complete, TransferState, file_state, set, all_set, advance, mark, mark_at,
  mark_chunk_complete, is_open, position, behind, found, next_in, next_chunk, is_complete,
  is_verified, all_verified, file_states, new,
}
use p2pfile_transfer.State.Chunks.{Fits, mark_chunk_complete-Fits, new_state-Fits}

abbrev file : FileMetadata
file = record { path = "a"; size = 300; modified = 0; checksum = replicate 32 0 }

abbrev started : TransferState
started = record {
  transfer_id = 9;
  peer_address = "peer";
  files = file_state 0 file 3 ∷ [];
  timestamp = 0;
  total_bytes = 300;
  transferred_bytes = 0;
}

started_new : new 9 "peer" (file ∷ []) 100 0 ≡ ok started
unfolding new file_states chunk_count total_size
started_new = refl

mark_chunk_complete-Fits_example :
    (t : TransferState) × (mark_chunk_complete 0 1 100 started ≡ ok t) × All Fits t.files
mark_chunk_complete-Fits_example =
    mark_chunk_complete-Fits started (new_state-Fits 0 file 3, tt) 0 1 100

abbrev holding : List Bool → TransferState
holding bits = record started {
  files = record (file_state 0 file 3) { completed_chunks = bits; status = in_progress } ∷ [];
}

asked_next : next_chunk (holding (true ∷ false ∷ true ∷ [])) ≡ some (0, 1)
unfolding next_chunk next_in is_open position behind found file_state
asked_next = refl

none_left : next_chunk (holding (true ∷ true ∷ true ∷ [])) ≡ none
unfolding next_chunk next_in is_open position behind found file_state
none_left = refl

-- The file of one chunk that is marked is in progress, not complete.
one_chunk :
    mark 0 (file_state 0 file 1)
    ≡ ok (record (file_state 0 file 1) { completed_chunks = true ∷ []; status = in_progress })
unfolding mark set all_set advance file_state
one_chunk = refl

-- A chunk that is marked again counts again.
counted_again :
    (mark_chunk_complete 0 0 100 started >>= mark_chunk_complete 0 0 100)
    ≡ ok (record (holding (true ∷ false ∷ false ∷ [])) { transferred_bytes = 200 })
unfolding mark_chunk_complete mark_at mark set all_set advance file_state
counted_again = refl

-- All chunks set make a file complete, and the transfer is not complete before they are verified.
all_chunks :
    mark_chunk_complete 0 1 100 (holding (true ∷ false ∷ true ∷ []))
    ≡ ok (record started {
      files =
          record (file_state 0 file 3) {
            completed_chunks = true ∷ true ∷ true ∷ [];
            status = complete;
          }
          ∷ [];
      transferred_bytes = 100;
    })
unfolding mark_chunk_complete mark_at mark set all_set advance file_state
all_chunks = refl

not_yet : is_complete (holding (true ∷ true ∷ true ∷ [])) ≡ false
unfolding is_complete all_verified is_verified file_state
not_yet = refl
