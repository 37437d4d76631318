-- ===== src/State.antt =====
-- p2p-core/src/state.rs: the chunk state machine of a transfer. A bit vector is a list of Booleans;
-- `progress`, the only use of floating point, is left out.
pub mod Chunks
pub mod Next
pub mod Runs
use p2pfile_transfer.Common.{
  ℕ, zero, suc, ◌+◌, ◌%◌, ◌^◌, Bool, true, false, ◌&&◌, List, [], ◌∷◌, Option, none, some, ltb,
  if◌then◌else◌, replicate,
}
use Prim.Native.String.{String}
use p2pfile_transfer.Errors.{Result, ok, panic, ◌>>=◌}
use p2pfile_transfer.Protocol.{Uuid, FileMetadata}
use p2pfile_transfer.Transfer.{chunk_count, u64_mod}
use p2pfile_transfer.Folder.{total_size}

pub data FileStatus : Type 0 where
  pending in_progress complete verified failed : FileStatus

pub record FileState : Type 0 where
  pub file_index : ℕ
  pub metadata : FileMetadata
  pub local_path : List ℕ
  pub total_chunks : ℕ
  pub completed_chunks : List Bool
  pub status : FileStatus

pub record TransferState : Type 0 where
  pub transfer_id : Uuid
  pub peer_address : String
  pub files : List FileState
  pub timestamp : ℕ
  pub total_bytes : ℕ
  pub transferred_bytes : ℕ

unfoldable pub file_state : ℕ → FileMetadata → ℕ → FileState
file_state i metadata total_chunks = record {
  file_index = i % 2 ^ 32;
  metadata = metadata;
  local_path = [];
  total_chunks = total_chunks;
  completed_chunks = replicate total_chunks false;
  status = pending;
}

unfoldable pub file_states : ℕ → ℕ → List FileMetadata → Result (List FileState)
file_states chunk_size i [] = ok []
file_states chunk_size i (metadata ∷ files) = chunk_count metadata.size chunk_size >>= λ n.
    file_states chunk_size (i + 1) files >>= λ rest. ok (file_state i metadata n ∷ rest)

-- `timestamp` is what the clock says.
unfoldable pub new : Uuid → String → List FileMetadata → ℕ → ℕ → Result TransferState
new transfer_id peer_address files chunk_size timestamp =
    file_states chunk_size 0 files >>= λ states. ok (record {
      transfer_id = transfer_id;
      peer_address = peer_address;
      files = states;
      timestamp = timestamp;
      total_bytes = total_size files;
      transferred_bytes = 0;
    })

-- `BitVec::set` panics out of range.
unfoldable pub set : List Bool → ℕ → Result (List Bool)
set [] i = panic
set (b ∷ bits) zero = ok (true ∷ bits)
set (b ∷ bits) (suc i) = set bits i >>= λ rest. ok (b ∷ rest)

-- `BitVec::all`.
unfoldable pub all_set : List Bool → Bool
all_set [] = true
all_set (b ∷ bits) = b && all_set bits

unfoldable pub advance : Bool → FileStatus → FileStatus
advance true in_progress = complete
advance false in_progress = in_progress
advance full pending = in_progress
advance full complete = complete
advance full verified = verified
advance full failed = failed

unfoldable pub mark : ℕ → FileState → Result FileState
mark chunk_index f = set f.completed_chunks chunk_index >>= λ bits.
    ok (record f { completed_chunks = bits; status = advance (all_set bits) f.status })

-- The file at a position, replaced; the flag says whether a chunk was marked.
unfoldable pub mark_at : ℕ → ℕ → List FileState → Result (Bool × List FileState)
mark_at i chunk_index [] = ok (false, [])
mark_at zero chunk_index (f ∷ files) =
    if ltb chunk_index f.total_chunks
    then (mark chunk_index f >>= λ marked. ok (true, marked ∷ files))
    else ok (false, f ∷ files)
mark_at (suc i) chunk_index (f ∷ files) = mark_at i chunk_index files >>= λ r. ok (r.0, f ∷ r.1)

unfoldable pub mark_chunk_complete : ℕ → ℕ → ℕ → TransferState → Result TransferState
mark_chunk_complete file_index chunk_index chunk_size s =
    mark_at file_index chunk_index s.files >>= λ r. ok (record s {
      files = r.1;
      transferred_bytes =
          (if r.0 then (s.transferred_bytes + chunk_size) % u64_mod else s.transferred_bytes);
    })

is_verified : FileStatus → Bool
is_verified verified = true
is_verified _ = false

all_verified : List FileState → Bool
unfolding is_verified
all_verified [] = true
all_verified (f ∷ files) = is_verified f.status && all_verified files

unfoldable pub is_complete : TransferState → Bool
unfolding all_verified
is_complete s = all_verified s.files

unfoldable pub is_open : FileStatus → Bool
is_open pending = true
is_open in_progress = true
is_open _ = false

behind : Option ℕ → Option ℕ
behind none = none
behind (some i) = some (suc i)

-- The first bit that is not set.
unfoldable pub position : List Bool → Option ℕ
unfolding behind
position [] = none
position (false ∷ bits) = some 0
position (true ∷ bits) = behind (position bits)

found : ℕ → Option ℕ → Option (ℕ × ℕ) → Option (ℕ × ℕ)
found file_index (some chunk_index) rest = some (file_index, chunk_index)
found file_index none rest = rest

next_in : List FileState → Option (ℕ × ℕ)
unfolding found is_open position
next_in [] = none
next_in (f ∷ files) =
    let rest = next_in files in
    if is_open f.status then found f.file_index (position f.completed_chunks) rest else rest

unfoldable pub next_chunk : TransferState → Option (ℕ × ℕ)
unfolding next_in
next_chunk s = next_in s.files
