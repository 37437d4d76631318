-- ===== src/State/Chunks.antt =====
-- state.rs: what a new state holds, and what marking a chunk does to the files of a transfer.
use p2pfile_transfer.Common.{
  ℕ, zero, suc, ◌+◌, ◌<◌, ◌≡◌, ◌-◌, ◌/◌, ◌==◌, sym, ap, ◌%◌, refl, inl, inr, Bool, true, false,
  List, [], ◌∷◌, some, arith, length, get_elem?, All, replicate, ltb, if◌then◌else◌, Bool-cases,
  ltb→lt,
}
use p2pfile_transfer.Errors.{ok}
use Prim.Native.String.{String}
use p2pfile_transfer.Protocol.{Uuid, FileMetadata}
use p2pfile_transfer.Folder.{total_size}
use p2pfile_transfer.Transfer.{chunk_count, u64_mod}
use p2pfile_transfer.State.{
  FileStatus, pending, in_progress, complete, verified, failed, FileState, TransferState, set,
  all_set, advance, mark, mark_at, mark_chunk_complete, file_state, file_states, new,
}

-- What a status says of the chunks.
abbrev pub Stage : FileStatus → List Bool → Type 0
Stage pending bits = bits ≡ replicate (length bits) false
Stage complete bits = all_set bits ≡ true
Stage in_progress bits = Unit {0}
Stage verified bits = Unit {0}
Stage failed bits = Unit {0}

-- A file has a bit for each chunk, none set while it is pending and all set once it is complete.
pub record Fits (f : FileState) : Type 0 where
  pub counted : length f.completed_chunks ≡ f.total_chunks
  pub staged : Stage f.status f.completed_chunks

-- A list of bits with one more set.
record SetAt (i : ℕ) (bits new_bits : List Bool) : Type 0 where
  same_length : length new_bits ≡ length bits
  now_set : get_elem? new_bits i ≡ some true
  keeps_all : all_set bits ≡ true → all_set new_bits ≡ true

set-SetAt :
    (bits : List Bool) (i : ℕ)
    → i < length bits
    → (new_bits : List Bool) × (set bits i ≡ ok new_bits) × SetAt i bits new_bits
unfolding set all_set
set-SetAt [] i l = absurd (omega arith)
set-SetAt (b ∷ bits) zero l = (
  true ∷ bits,
  refl,
  record { same_length = refl; now_set = refl; keeps_all = λ e. ground (arith, e) },
)
set-SetAt (b ∷ bits) (suc i) l =
    let (rest, e, at) = set-SetAt bits i (omega arith) in
    (
      b ∷ rest,
      rw e refl,
      record {
        same_length = omega (arith, at.same_length);
        now_set = at.now_set;
        keeps_all = λ h. ground (arith, h, at.keeps_all);
      },
    )

advance-Stage :
    (status : FileStatus) (bits new_bits : List Bool)
    → Stage status bits
    → (all_set bits ≡ true → all_set new_bits ≡ true)
    → Stage (advance (all_set new_bits) status) new_bits
unfolding advance
advance-Stage pending bits new_bits h keeps = tt
advance-Stage in_progress bits new_bits h keeps = elim (Bool-cases (all_set new_bits)) [
  | inl full ↦ rw full full
  | inr partial ↦ rw partial tt
]
advance-Stage complete bits new_bits h keeps = keeps h
advance-Stage verified bits new_bits h keeps = tt
advance-Stage failed bits new_bits h keeps = tt

mark-Fits :
    (chunk_index : ℕ) (f : FileState)
    → Fits f
    → chunk_index < f.total_chunks
    → (marked : FileState) × (mark chunk_index f ≡ ok marked) × Fits marked
unfolding mark
mark-Fits chunk_index f fits l =
    let (bits, e, at) = set-SetAt f.completed_chunks chunk_index (omega (arith, fits.counted)) in
    (
      record f { completed_chunks = bits; status = advance (all_set bits) f.status },
      rw e refl,
      record {
        counted = omega (arith, fits.counted, at.same_length);
        staged = advance-Stage f.status f.completed_chunks bits fits.staged at.keeps_all;
      },
    )

mark_at-Fits :
    (i chunk_index : ℕ) (files : List FileState)
    → All Fits files
    → (r : Bool × List FileState) × (mark_at i chunk_index files ≡ ok r) × All Fits r.1
unfolding mark_at
mark_at-Fits i chunk_index [] fits = ((false, []), refl, tt)
mark_at-Fits zero chunk_index (f ∷ files) (fit, fits) =
    elim (Bool-cases (ltb chunk_index f.total_chunks)) [
      | inl inside ↦
          let (marked, e, fit_still) = mark-Fits chunk_index f fit (ltb→lt _ _ inside) in
          ((true, marked ∷ files), rw (inside, e) refl, (fit_still, fits))
      | inr outside ↦ ((false, f ∷ files), rw outside refl, (fit, fits))
    ]
mark_at-Fits (suc i) chunk_index (f ∷ files) (fit, fits) =
    let (r, e, fit_still) = mark_at-Fits i chunk_index files fits in
    ((r.0, f ∷ r.1), rw e refl, (fit, fit_still))

-- In a state whose files all fit, marking a chunk never panics, whatever the indices, and the files
-- of the new state all fit: a file of the new state is complete only with all its chunks.
pub mark_chunk_complete-Fits :
    (s : TransferState)
    → All Fits s.files
    → (file_index chunk_index chunk_size : ℕ)
    → (t : TransferState) × (mark_chunk_complete file_index chunk_index chunk_size s ≡ ok t)
      × All Fits t.files
unfolding mark_chunk_complete
mark_chunk_complete-Fits s fits file_index chunk_index chunk_size =
    let (r, e, fit_still) = mark_at-Fits file_index chunk_index s.files fits in
    (
      record s {
        files = r.1;
        transferred_bytes =
            (if r.0 then (s.transferred_bytes + chunk_size) % u64_mod else s.transferred_bytes);
      },
      rw e refl,
      fit_still,
    )

replicate-length : (n : ℕ) → length (replicate {A = Bool} n false) ≡ n
replicate-length zero = refl
replicate-length (suc n) = omega (arith, replicate-length n)

pub new_state-Fits : (i : ℕ) (metadata : FileMetadata) (n : ℕ) → Fits (file_state i metadata n)
unfolding file_state
new_state-Fits i metadata n = record {
  counted = replicate-length n;
  staged = ap (λ m. replicate m false) (sym (replicate-length n));
}

chunk_count-ok :
    (size chunk_size : ℕ) → 0 < chunk_size → (n : ℕ) × (chunk_count size chunk_size ≡ ok n)
unfolding chunk_count
chunk_count-ok size chunk_size h =
    let no : (chunk_size == 0) ≡ false = ground arith in
    (((size + chunk_size) % u64_mod + u64_mod - 1) % u64_mod / chunk_size, rw no refl)

file_states-Fits :
    (chunk_size i : ℕ) (files : List FileMetadata)
    → 0 < chunk_size
    → (states : List FileState) × (file_states chunk_size i files ≡ ok states) × All Fits states
unfolding file_states
file_states-Fits chunk_size i [] h = ([], refl, tt)
file_states-Fits chunk_size i (metadata ∷ files) h =
    let (n, e) = chunk_count-ok metadata.size chunk_size h in
    let (rest, d, fits) = file_states-Fits chunk_size (i + 1) files h in
    (file_state i metadata n ∷ rest, rw (e, d) refl, (new_state-Fits i metadata n, fits))

-- With a positive chunk size a new state is returned, and its files all fit.
new-Fits :
    (transfer_id : Uuid) (peer_address : String) (files : List FileMetadata)
    (chunk_size timestamp : ℕ)
    → 0 < chunk_size
    → (s : TransferState) × (new transfer_id peer_address files chunk_size timestamp ≡ ok s)
      × All Fits s.files
unfolding new
new-Fits transfer_id peer_address files chunk_size timestamp h =
    let (states, e, fits) = file_states-Fits chunk_size 0 files h in
    (
      record {
        transfer_id = transfer_id;
        peer_address = peer_address;
        files = states;
        timestamp = timestamp;
        total_bytes = total_size files;
        transferred_bytes = 0;
      },
      rw e refl,
      fits,
    )
