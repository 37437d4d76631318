-- ===== src/FolderSession/Receiving/Plan.antt =====
-- transfer_folder.rs: what the receiver waits for is what the sender sends.
use p2pfile_transfer.Common.{
  ℕ, ◌^◌, ◌<◌, ◌≤◌, ◌≡◌, ◌≢◌, refl, sym, ap, inl, inr, true, false, List, [], ◌∷◌, Option, none,
  some, arith, length, All, ◌==◌, map,
}
use p2pfile_transfer.Common.Counting.{contains}
use p2pfile_transfer.Common.Maps.{key_decides, number_key}
use p2pfile_transfer.Protocol.{Uuid}
use p2pfile_transfer.Folder.{FolderTransferState, get_completed_chunks, next_file}
use p2pfile_transfer.Folder.Progress.{next_file_first}
use p2pfile_transfer.FolderSession.{as_u32, resume_point, resume_at, point_at, transfer_info_of}
use p2pfile_transfer.FolderSession.Sending.Bookkeeping.{Resumable}
use p2pfile_transfer.FolderSession.Receiving.{skips, already_sent}

contains-as_u32 :
    (xs : List ℕ) (n i : ℕ)
    → All (λ k. k < n) xs
    → n ≤ 2 ^ 32
    → i < n
    → contains (map as_u32 xs) (as_u32 i) ≡ contains xs i
unfolding contains
contains-as_u32 [] n i h l k = refl
contains-as_u32 (x ∷ xs) n i h l k = ground (arith, contains-as_u32 xs n i h.1 l k, h.0)

module _ (transfer_id : Uuid) (s : FolderTransferState) (r : Resumable s)
    (small : length s.files ≤ 2 ^ 32) (i : ℕ) (inside : i < length s.files) where
  point-agrees :
      (k : ℕ) (chunks : List ℕ)
      → k < 2 ^ 32
      → (k ≡ i → get_completed_chunks s i ≡ chunks)
      → (k ≢ i → get_completed_chunks s i ≡ [])
      → already_sent i (point_at transfer_id k chunks) ≡ length (get_completed_chunks s i)
  unfolding point_at already_sent
  point-agrees k [] l here there = elim (key_decides k i) [
    | inl same ↦ rw (here same) refl
    | inr other ↦ rw (there other) refl
  ]
  point-agrees k (c ∷ chunks) l here there = elim (key_decides k i) [
    | inl same ↦
        let e : (as_u32 k == i) ≡ true = ground (arith, same, inside, small) in
        rw (here same, e) refl
    | inr other ↦
        let e : (as_u32 k == i) ≡ false = ground (arith, other, l) in rw (there other, e) refl
  ]

  sent-agrees :
      (next : Option ℕ)
      → next_file s ≡ next
      → contains s.completed_files i ≡ false
      → already_sent i (resume_at transfer_id s next) ≡ length (get_completed_chunks s i)
  unfolding resume_at already_sent
  sent-agrees none e missing =
      rw (r.untouched i inside missing (λ f. let never : ⊥ = cc in never)) refl
  sent-agrees (some k) e missing =
      point-agrees k (get_completed_chunks s k) (omega (arith, (next_file_first s k e).0, small))
        (λ same. ap (get_completed_chunks s) (sym same))
        (λ other.
          r.untouched i inside missing
            (λ f. other (let same : k ≡ i = ground (arith, e, f) in same)))

  -- For every file of a resumed transfer of at most 2 ^ 32 files, the two ends agree on what is left:
  -- the receiver skips exactly the files that the sender skips, and of any other it takes as already
  -- sent exactly as many chunks as the sender will leave out.
  pub resume_agreement :
      (skips (transfer_info_of transfer_id (resume_point transfer_id s) s) i
        ≡ contains s.completed_files i)
      × (contains s.completed_files i ≡ false
          → already_sent i (transfer_info_of transfer_id (resume_point transfer_id s) s).resume_from
            ≡ length (get_completed_chunks s i))
  unfolding transfer_info_of resume_point skips
  resume_agreement = (
    contains-as_u32 s.completed_files (length s.files) i r.valid.known small inside,
    sent-agrees (next_file s) refl,
  )
