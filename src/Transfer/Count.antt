-- ===== src/Transfer/Count.antt =====
-- transfer_file.rs: `chunk_count` and `validate_file_size`.
use p2pfile_transfer.Common.{ℕ, ◌+◌, ◌-◌, ◌*◌, ◌/◌, ◌%◌, ◌^◌, ◌≤◌, ◌<◌, ◌≡◌, refl, arith}
use p2pfile_transfer.Errors.{ok, panic}
use p2pfile_transfer.Transfer.{chunk_count, validate_file_size, u64_mod}
use native.Mathlib.Nat.{div-add-mod, mod-lt}

ceiling :
    (size cs : ℕ)
    → 0 < cs
    → ((size + cs - 1) / cs * cs < size + cs) × (size ≤ (size + cs - 1) / cs * cs)
ceiling size cs h = omega (arith, div-add-mod (size + cs - 1) cs, mod-lt (size + cs - 1) h)

-- For a size that passes `validate_file_size` and a positive u32 chunk size, no step of the u64
-- computation wraps, and the count is the least number of chunks that covers the file.
pub chunk_count_least :
    (size cs : ℕ)
    → validate_file_size size ≡ ok tt
    → 0 < cs
    → cs < 2 ^ 32
    → (n : ℕ) × (chunk_count size cs ≡ ok n) × (size ≤ n * cs) × (n * cs < size + cs)
unfolding chunk_count validate_file_size
chunk_count_least size cs v pos small =
    let fits : size ≤ 2 ^ 40 = ground arith in
    let plain : ((size + cs) % u64_mod + u64_mod - 1) % u64_mod ≡ size + cs - 1 = omega arith in
    ((size + cs - 1) / cs, ground (arith, plain), (ceiling size cs pos).1, (ceiling size cs pos).0)

-- A chunk size of zero makes every count panic; the responder takes the chunk size from the peer's
-- `Config` message.
pub chunk_count_zero : (size : ℕ) → chunk_count size 0 ≡ panic
unfolding chunk_count
chunk_count_zero size = refl

pub validate_file_size-fits : (size : ℕ) → validate_file_size size ≡ ok tt → size ≤ 2 ^ 40
unfolding validate_file_size
validate_file_size-fits size v = ground arith
