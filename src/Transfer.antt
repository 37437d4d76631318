-- ===== src/Transfer.antt =====
-- p2p-core/src/transfer_file.rs: chunk arithmetic and the header of a chunk stream. The children
-- model the two ends of a file transfer.
pub mod Count
pub mod Header
pub mod Disk
pub mod Chunk
pub mod Sender
pub mod Receiver
pub mod Exchange
pub mod Runs
use p2pfile_transfer.Common.{
  ℕ, suc, ◌+◌, ◌-◌, ◌*◌, ◌/◌, ◌%◌, ◌^◌, ◌≤◌, ◌<◌, ◌≡◌, Bool, true, false, List, [], ◌∷◌, ◌++◌, ltb,
  ◌==◌, if◌then◌else◌, length, take, drop,
}
use p2pfile_transfer.Common.Bytes.{to_le_bytes, from_le_bytes}
use p2pfile_transfer.Errors.{Result, Error, ok, err, panic}

abbrev pub u64_mod : ℕ
u64_mod = 2 ^ 64

-- `MAX_CHUNK_STREAM_BYTES`
abbrev pub max_chunk_stream_bytes : ℕ
max_chunk_stream_bytes = 16 * 1024 * 1024

abbrev pub max_transfer_file_size : ℕ
max_transfer_file_size = 1024 * 1024 * 1024 * 1024

abbrev pub chunk_header_bytes : ℕ
chunk_header_bytes = 9

abbrev pub flag_compressed : ℕ
flag_compressed = 1

unfoldable pub validate_file_size : ℕ → Result (Unit {0})
validate_file_size size = if ltb max_transfer_file_size size then err Error.protocol else ok tt

-- `(file_size + cs - 1) / cs` on u64: sum and difference wrap, and a division by zero panics.
unfoldable pub chunk_count : ℕ → ℕ → Result ℕ
chunk_count file_size chunk_size =
    if chunk_size == 0
    then panic
    else ok (((file_size + chunk_size) % u64_mod + u64_mod - 1) % u64_mod / chunk_size)

-- What `send_chunk_stream` writes: `[chunk_index : u64 LE | flags : u8 | payload]`.
unfoldable pub chunk_stream : ℕ → Bool → List ℕ → List ℕ
chunk_stream chunk_index compressed payload =
    to_le_bytes 8 chunk_index ++ ((if compressed then flag_compressed else 0) ∷ payload)

-- The parts that `receive_file` reads off a stream of nine bytes or more.
unfoldable pub stream_index : List ℕ → ℕ
stream_index raw = from_le_bytes (take 8 raw)

first_or_zero : List ℕ → ℕ
first_or_zero [] = 0
first_or_zero (b ∷ bs) = b

unfoldable pub stream_flags : List ℕ → ℕ
unfolding first_or_zero
stream_flags raw = first_or_zero (drop 8 raw)

unfoldable pub stream_payload : List ℕ → List ℕ
stream_payload raw = drop chunk_header_bytes raw

-- `flags & FLAG_COMPRESSED != 0`
unfoldable pub is_compressed : ℕ → Bool
is_compressed flags = flags % 2 == 1
