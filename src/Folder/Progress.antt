-- ===== src/Folder/Progress.antt =====
-- transfer_folder.rs: the bookkeeping of `FolderTransferState`.
use p2pfile_transfer.Common.{
  ℕ, zero, suc, ◌+◌, ◌-◌, ◌%◌, ◌^◌, ◌≤◌, ◌<◌, ◌≡◌, ◌≢◌, ◌↔◌, refl, sym, ap, ◌∙◌, inl, inr, Bool,
  true, false, ◌||◌, List, [], ◌∷◌, ◌++◌, some, none, arith, length, All, All-append, ◌==◌,
  if◌then◌else◌, Bool-cases,
}
use Prim.Native.String.{String}
use p2pfile_transfer.Common.Counting.{
  contains, count_below, Distinct, count_below-le, count_below_mono, count_below_full,
  count_below-Distinct, contains-append, Distinct-append,
}
use p2pfile_transfer.Common.Maps.{number_key, get, get-insert_same, get-insert_other}
use p2pfile_transfer.Protocol.{Uuid, FileMetadata, ConfigMessage}
use p2pfile_transfer.Folder.{
  FolderTransferState, new, total_size, size_at, or_empty, get_completed_chunks,
  mark_chunk_complete, mark_file_complete, first_missing, next_file, is_complete,
}

-- The bytes of the files with these numbers, from number `i` on.
unfoldable pub weight : List FileMetadata → (ℕ → Bool) → ℕ → ℕ
weight [] p i = 0
weight (file ∷ files) p i = (if p i then file.size else 0) + weight files p (i + 1)

-- The completed files are distinct files of the transfer, and `transferred_bytes` is their size.
pub record Valid (s : FolderTransferState) : Type 0 where
  pub distinct : Distinct s.completed_files
  pub known : All (λ i. i < length s.files) s.completed_files
  pub counted : s.transferred_bytes ≡ weight s.files (contains s.completed_files) 0 % 2 ^ 64
  pub sized : s.total_bytes ≡ total_size s.files

weight_none : (files : List FileMetadata) (i : ℕ) → weight files (contains []) i ≡ 0
unfolding weight contains
weight_none [] i = refl
weight_none (file ∷ files) i = omega (arith, weight_none files (i + 1))

weight_same :
    (files : List FileMetadata) (p q : ℕ → Bool) (i : ℕ)
    → ((j : ℕ) → i ≤ j → j < i + length files → p j ≡ q j)
    → weight files p i ≡ weight files q i
unfolding weight
weight_same [] p q i h = refl
weight_same (file ∷ files) p q i h =
    let first : p i ≡ q i = h i (omega arith) (omega arith) in
    rw first (
      ap (λ n. (if q i then file.size else 0) + n)
        (weight_same files p q (i + 1) (λ j l u. h j (omega arith) (omega arith))))

weight_more :
    (files : List FileMetadata) (p : ℕ → Bool) (i y : ℕ)
    → i ≤ y
    → p y ≡ false
    → weight files (λ j. p j || (y == j)) i ≡ weight files p i + size_at files (y - i)
unfolding weight size_at
weight_more [] p i y l h = refl
weight_more (file ∷ files) p i y l h = elim (Bool-cases (y == i)) [
  | inl same ↦
      let eq : y ≡ i = ground (arith, same) in
      let zero_off : y - i ≡ 0 = omega (arith, eq) in
      let out : p i ≡ false = ground (arith, eq, h) in
      let rest : weight files (λ j. p j || (y == j)) (i + 1) ≡ weight files p (i + 1) =
        weight_same files (λ j. p j || (y == j)) p (i + 1) (λ j a b. ground (arith, eq, a)) in
      rw (zero_off, same, out, rest) (omega arith)
  | inr other ↦
      let later : i + 1 ≤ y = ground (arith, other, l) in
      let off : y - i ≡ suc (y - (i + 1)) = omega arith in
      let rest = weight_more files p (i + 1) y later h in
      let plain : (p i || (y == i)) ≡ p i = ground (arith, other) in
      rw (off, plain, rest) (omega arith)
]

pub new-Valid :
    (transfer_id : Uuid) (folder_name : String) (files : List FileMetadata) (config : ConfigMessage)
    → Valid (new transfer_id folder_name files config)
unfolding new
new-Valid transfer_id folder_name files config = record {
  distinct = tt;
  known = tt;
  counted = rw (weight_none files 0);
  sized = refl;
}

module _ (s : FolderTransferState) (v : Valid s) where
  -- Marking a file of the transfer, once or again, keeps the state valid: no file counts twice.
  pub mark_file_complete-Valid :
      (file_index : ℕ) → file_index < length s.files → Valid (mark_file_complete file_index s)
  unfolding mark_file_complete
  mark_file_complete-Valid file_index l =
      elim (Bool-cases (contains s.completed_files file_index)) [
        | inl again ↦ rw (mark_file_complete, again) v
        | inr first ↦
            rw (mark_file_complete, first)
              (record {
                distinct = Distinct-append s.completed_files file_index v.distinct first;
                known =
                    All-append (λ i. i < length s.files) s.completed_files (file_index ∷ []) v.known
                      (l, tt);
                counted =
                    (let more =
                        weight_more s.files (contains s.completed_files) 0 file_index (omega arith)
                          first in
                      let plain : file_index - 0 ≡ file_index = omega arith in
                      let same =
                        weight_same s.files (contains (s.completed_files ++ (file_index ∷ [])))
                          (λ j. contains s.completed_files j || (file_index == j)) 0
                          (λ j a b. contains-append s.completed_files file_index j) in
                      rw (same, more, plain) (omega (arith, v.counted)));
                sized = v.sized;
              })
      ]

first_missing-none :
    (completed : List ℕ) (n i : ℕ)
    → first_missing completed n i ≡ none
    → (j : ℕ) → i ≤ j
    → j < i + n
    → contains completed j ≡ true
unfolding first_missing
first_missing-none completed zero i e j a b = absurd (omega arith)
first_missing-none completed (suc n) i e j a b = elim (Bool-cases (contains completed i)) [
  | inl there ↦ elim (Bool-cases (i == j)) [
    | inl same ↦ ground (arith, same, there)
    | inr other ↦
        first_missing-none completed n (i + 1) (ground (arith, there, e)) j
          (ground (arith, other, a)) (omega arith)
  ]
  | inr missing ↦ let never : ⊥ = ground (arith, missing, e) in absurd never
]

first_missing-some :
    (completed : List ℕ) (n i k : ℕ)
    → first_missing completed n i ≡ some k
    → (i ≤ k)
      × (k < i + n)
      × (contains completed k ≡ false)
      × ((j : ℕ) → i ≤ j → j < k → contains completed j ≡ true)
unfolding first_missing
first_missing-some completed zero i k e = cc
first_missing-some completed (suc n) i k e = elim (Bool-cases (contains completed i)) [
  | inl there ↦
      let (a, b, c, d) = first_missing-some completed n (i + 1) k (ground (arith, there, e)) in
      (
        omega arith,
        omega arith,
        c,
        λ j l u. elim (Bool-cases (i == j)) [
          | inl same ↦ ground (arith, same, there)
          | inr other ↦ d j (ground (arith, other, l)) u
        ],
      )
  | inr missing ↦
      let same : i ≡ k = ground (arith, missing, e) in
      (omega arith, omega arith, ground (arith, same, missing), λ j l u. absurd (omega arith))
]

first_missing-full :
    (completed : List ℕ) (n i : ℕ)
    → ((j : ℕ) → i ≤ j → j < i + n → contains completed j ≡ true)
    → first_missing completed n i ≡ none
unfolding first_missing
first_missing-full completed zero i h = refl
first_missing-full completed (suc n) i h =
    rw (h i (omega arith) (omega arith))
      (first_missing-full completed n (i + 1) (λ j a b. h j (omega arith) (omega arith)))

count_all : (n : ℕ) → count_below (λ _. true) n ≡ n
unfolding count_below
count_all zero = refl
count_all (suc n) = omega (arith, count_all n)

weight_all :
    (files : List FileMetadata) (p : ℕ → Bool) (i : ℕ)
    → ((j : ℕ) → i ≤ j → j < i + length files → p j ≡ true)
    → weight files p i % 2 ^ 64 ≡ total_size files
unfolding weight total_size
weight_all [] p i h = refl
weight_all (file ∷ files) p i h =
    rw (h i (omega arith) (omega arith))
      (omega (arith, weight_all files p (i + 1) (λ j a b. h j (omega arith) (omega arith))))

module _ (s : FolderTransferState) (v : Valid s) where
  all_there :
      is_complete s ≡ true → (j : ℕ) → j < length s.files → contains s.completed_files j ≡ true
  unfolding is_complete
  all_there e j l =
      count_below_full (contains s.completed_files) (λ _. true) (length s.files) (λ i u h. refl)
        (ground (
          arith,
          e,
          count_all (length s.files),
          count_below-Distinct s.completed_files (length s.files) v.distinct v.known,
        ))
        j l refl

  pub all_done :
      ((j : ℕ) → j < length s.files → contains s.completed_files j ≡ true) → is_complete s ≡ true
  unfolding is_complete
  all_done h = ground (
    arith,
    count_below_mono (λ _. true) (contains s.completed_files) (length s.files) (λ i l t. h i l),
    count_below-le (contains s.completed_files) (length s.files),
    count_all (length s.files),
    count_below-Distinct s.completed_files (length s.files) v.distinct v.known,
  )

  -- In a valid state there is no next file exactly when the transfer counts as complete.
  pub next_file-is_complete : (next_file s ≡ none) ↔ (is_complete s ≡ true)
  unfolding next_file
  next_file-is_complete = (
    λ e. all_done (λ j l.
        first_missing-none s.completed_files (length s.files) 0 e j (omega arith) (omega arith)),
    λ e.
        first_missing-full s.completed_files (length s.files) 0
          (λ j a b. all_there e j (omega arith)),
  )

  -- In a valid state that counts as complete, `transferred_bytes` is `total_bytes`.
  pub is_complete-transferred_bytes : is_complete s ≡ true → s.transferred_bytes ≡ s.total_bytes
  is_complete-transferred_bytes e =
      v.counted
      ∙ weight_all s.files (contains s.completed_files) 0 (λ j a b. all_there e j (omega arith))
      ∙ sym v.sized

-- The next file is the first that is not complete.
pub next_file_first :
    (s : FolderTransferState) (k : ℕ)
    → next_file s ≡ some k
    → (k < length s.files)
      × (contains s.completed_files k ≡ false)
      × ((j : ℕ) → j < k → contains s.completed_files j ≡ true)
unfolding next_file
next_file_first s k e =
    let (a, b, c, d) = first_missing-some s.completed_files (length s.files) 0 k e in
    (omega arith, c, λ j l. d j (omega arith) l)

-- A chunk that is marked is the last of its file's completed chunks, behind those marked before; the
-- completed chunks of every other file, and the next file, stay as they are.
pub get_completed_chunks-mark_chunk_complete :
    (s : FolderTransferState) (file_index chunk_index other : ℕ)
    → file_index ≢ other
    → (get_completed_chunks (mark_chunk_complete file_index chunk_index s) file_index
        ≡ get_completed_chunks s file_index ++ (chunk_index ∷ []))
      × (get_completed_chunks (mark_chunk_complete file_index chunk_index s) other
          ≡ get_completed_chunks s other)
      × (next_file (mark_chunk_complete file_index chunk_index s) ≡ next_file s)
unfolding get_completed_chunks mark_chunk_complete next_file
get_completed_chunks-mark_chunk_complete s file_index chunk_index other d =
    let chunks = or_empty (get s.file_chunks file_index) ++ (chunk_index ∷ []) in
    (
      ap or_empty (get-insert_same s.file_chunks file_index chunks),
      ap or_empty (get-insert_other s.file_chunks file_index other chunks d),
      refl,
    )

first_missing-eq-some :
    (completed : List ℕ) (n i k : ℕ)
    → i ≤ k
    → k < i + n
    → contains completed k ≡ false
    → ((j : ℕ) → i ≤ j → j < k → contains completed j ≡ true)
    → first_missing completed n i ≡ some k
unfolding first_missing
first_missing-eq-some completed zero i k a b c d = absurd (omega arith)
first_missing-eq-some completed (suc n) i k a b c d = elim (Bool-cases (i == k)) [
  | inl same ↦ let eq : i ≡ k = ground (arith, same) in rw (eq, c) refl
  | inr other ↦ rw (d i (omega arith) (ground (arith, other, a))) (
      first_missing-eq-some completed n (i + 1) k (ground (arith, other, a)) (omega arith) c
        (λ j l u. d j (omega arith) u))
]

-- A file that is not complete, the files before it being so, is the next one.
pub next_file-eq-some :
    (s : FolderTransferState) (k : ℕ)
    → k < length s.files
    → contains s.completed_files k ≡ false
    → ((j : ℕ) → j < k → contains s.completed_files j ≡ true)
    → next_file s ≡ some k
unfolding next_file
next_file-eq-some s k l c d =
    first_missing-eq-some s.completed_files (length s.files) 0 k (omega arith) (omega arith) c
      (λ j a u. d j u)
