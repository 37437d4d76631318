-- ===== src/FolderSession/Sending/Bookkeeping.antt =====
-- transfer_folder.rs: what the calls of `mark_chunk_complete` and `mark_file_complete` that `send` makes
-- keep.
use p2pfile_transfer.Common.{
  ℕ, suc, ◌+◌, ◌%◌, ◌^◌, ◌<◌, ◌≡◌, ◌≢◌, refl, sym, ap, ◌∙◌, inl, inr, false, List, [], ◌∷◌, ◌++◌,
  some, arith, length, All, subst,
}
use p2pfile_transfer.Common.Counting.{contains, Distinct, Distinct-append, contains-append}
use p2pfile_transfer.Common.Maps.{key_decides, number_key}
use mathlib.Core.List.{append_assoc, append-nil}
use p2pfile_transfer.Folder.{
  FolderTransferState, new, get_completed_chunks, mark_chunk_complete, mark_file_complete,
  next_file, size_at,
}
use p2pfile_transfer.Folder.Progress.{
  Valid, mark_file_complete-Valid, get_completed_chunks-mark_chunk_complete, next_file_first,
}
use p2pfile_transfer.FolderSession.Sending.{mark_all, finish_file}

-- A state from which a transfer can resume: chunks are marked at most once, and of the files that are
-- not complete only the next one has any.
pub record Resumable (s : FolderTransferState) : Type 0 where
  pub valid : Valid s
  pub once : (i : ℕ) → Distinct (get_completed_chunks s i)
  pub untouched :
      (i : ℕ)
      → i < length s.files
      → contains s.completed_files i ≡ false
      → next_file s ≢ some i
      → get_completed_chunks s i ≡ []

get_completed_chunks-mark_all :
    (i : ℕ) (chunks : List ℕ) (s : FolderTransferState)
    → get_completed_chunks (mark_all i chunks s) i ≡ get_completed_chunks s i ++ chunks
unfolding mark_all
get_completed_chunks-mark_all i [] s = sym (append-nil (get_completed_chunks s i))
get_completed_chunks-mark_all i (c ∷ chunks) s =
    get_completed_chunks-mark_all i chunks (mark_chunk_complete i c s)
    ∙ ap (λ l. l ++ chunks)
        (get_completed_chunks-mark_chunk_complete s i c (suc i) (λ e. absurd (omega (arith, e)))).0
    ∙ append_assoc (get_completed_chunks s i) (c ∷ []) chunks

pub get_completed_chunks-mark_all_other :
    (i j : ℕ) (chunks : List ℕ) (s : FolderTransferState)
    → i ≢ j
    → get_completed_chunks (mark_all i chunks s) j ≡ get_completed_chunks s j
unfolding mark_all
get_completed_chunks-mark_all_other i j [] s d = refl
get_completed_chunks-mark_all_other i j (c ∷ chunks) s d =
    get_completed_chunks-mark_all_other i j chunks (mark_chunk_complete i c s) d
    ∙ (get_completed_chunks-mark_chunk_complete s i c j d).1

-- What marking chunks leaves alone.
pub record SameFiles (s t : FolderTransferState) : Type 0 where
  pub files : t.files ≡ s.files
  pub completed_files : t.completed_files ≡ s.completed_files
  pub total_bytes : t.total_bytes ≡ s.total_bytes
  pub transferred_bytes : t.transferred_bytes ≡ s.transferred_bytes

pub mark_all-SameFiles :
    (i : ℕ) (chunks : List ℕ) (s : FolderTransferState) → SameFiles s (mark_all i chunks s)
unfolding mark_all mark_chunk_complete
mark_all-SameFiles i [] s = record {
  files = refl;
  completed_files = refl;
  total_bytes = refl;
  transferred_bytes = refl;
}
mark_all-SameFiles i (c ∷ chunks) s =
    let r = mark_all-SameFiles i chunks (mark_chunk_complete i c s) in
    record {
      files = r.files;
      completed_files = r.completed_files;
      total_bytes = r.total_bytes;
      transferred_bytes = r.transferred_bytes;
    }

pub next_file-SameFiles : (s t : FolderTransferState) → SameFiles s t → next_file t ≡ next_file s
unfolding next_file
next_file-SameFiles s t same = rw (same.files, same.completed_files)

Valid-SameFiles : (s t : FolderTransferState) → SameFiles s t → Valid s → Valid t
Valid-SameFiles s t same v = record {
  distinct = rw same.completed_files v.distinct;
  known = rw (same.completed_files, same.files) v.known;
  counted = rw (same.completed_files, same.files, same.transferred_bytes) v.counted;
  sized = rw (same.files, same.total_bytes) v.sized;
}

Distinct-append_many :
    (old xs : List ℕ)
    → Distinct old
    → Distinct xs
    → All (λ k. contains old k ≡ false) xs
    → Distinct (old ++ xs)
unfolding contains
Distinct-append_many old [] d e h = rw (append-nil old) d
Distinct-append_many old (x ∷ xs) d e h =
    subst Distinct (append_assoc old (x ∷ []) xs) (
      Distinct-append_many (old ++ (x ∷ [])) xs (Distinct-append old x d h.0) e.1
        (apart xs e.0 h.1))
  where
    apart :
        (ys : List ℕ)
        → contains ys x ≡ false
        → All (λ k. contains old k ≡ false) ys
        → All (λ k. contains (old ++ (x ∷ [])) k ≡ false) ys
    apart [] e h = tt
    apart (y ∷ ys) e h =
        (ground (arith, contains-append old x y, e, h.0), apart ys (ground (arith, e)) h.1)

pub mark_all-Resumable :
    (i : ℕ) (chunks : List ℕ) (s : FolderTransferState)
    → Resumable s
    → next_file s ≡ some i
    → Distinct chunks
    → All (λ k. contains (get_completed_chunks s i) k ≡ false) chunks
    → Resumable (mark_all i chunks s)
mark_all-Resumable i chunks s r is_next d fresh =
    let same = mark_all-SameFiles i chunks s in
    record {
      valid = Valid-SameFiles s (mark_all i chunks s) same r.valid;
      once = λ j. elim (key_decides i j) [
        | inl eq ↦
            subst (λ j. Distinct (get_completed_chunks (mark_all i chunks s) j)) eq
              (rw (get_completed_chunks-mark_all i chunks s)
                (Distinct-append_many (get_completed_chunks s i) chunks (r.once i) d fresh))
        | inr other ↦ rw (get_completed_chunks-mark_all_other i j chunks s other) (r.once j)
      ];
      untouched = λ j l out n. elim (key_decides i j) [
        | inl eq ↦
            absurd (n (next_file-SameFiles s (mark_all i chunks s) same ∙ is_next ∙ ap some eq))
        | inr other ↦
            get_completed_chunks-mark_all_other i j chunks s other
            ∙ r.untouched j (subst (λ f. j < length f) same.files l)
                (sym (ap (λ c. contains c j) same.completed_files) ∙ out)
                (λ e. n (next_file-SameFiles s (mark_all i chunks s) same ∙ e))
      ];
    }

-- The state once file `i` is marked for the first time.
abbrev pub marked_first : ℕ → FolderTransferState → FolderTransferState
marked_first i s = record s {
  completed_files = s.completed_files ++ (i ∷ []);
  transferred_bytes = (s.transferred_bytes + size_at s.files i) % 2 ^ 64;
}

pub mark_file_complete-first :
    (i : ℕ) (s : FolderTransferState)
    → contains s.completed_files i ≡ false
    → mark_file_complete i s ≡ marked_first i s
unfolding mark_file_complete
mark_file_complete-first i s new = rw new refl

pub finish_file-Resumable :
    (i : ℕ) (s : FolderTransferState)
    → Resumable s
    → next_file s ≡ some i
    → Resumable (finish_file i s)
unfolding finish_file get_completed_chunks next_file
finish_file-Resumable i s r is_next =
    let (l, new, earlier) = next_file_first s i is_next in
    let v : Valid (marked_first i s) =
      subst Valid (mark_file_complete-first i s new) (mark_file_complete-Valid s r.valid i l) in
    rw (mark_file_complete-first i s new) (record {
      valid = record {
        distinct = v.distinct;
        known = v.known;
        counted = v.counted;
        sized = v.sized;
      };
      once = λ j. r.once j;
      untouched = λ j k out n.
          r.untouched j k (ground (arith, contains-append s.completed_files i j, out)) (λ e.
            let same : i ≡ j = ground (arith, is_next, e) in
            let never : ⊥ = ground (arith, contains-append s.completed_files i j, out, same) in
            never);
    })
