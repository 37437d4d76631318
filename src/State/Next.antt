-- ===== src/State/Next.antt =====
-- state.rs: which chunk is asked for next.
use p2pfile_transfer.Common.{
  ℕ, zero, suc, ◌<◌, ◌≡◌, ◌⊎◌, sym, subst, refl, inl, inr, Bool, true, false, List, [], ◌∷◌, none,
  some, arith, get_elem?, All, Bool-cases, Option-cases,
}
use p2pfile_transfer.State.{
  FileState, TransferState, all_set, is_open, position, next_chunk, next_in, found, behind,
}

-- The first chunk that is not set.
pub record FirstOpen (bits : List Bool) (i : ℕ) : Type 0 where
  pub missing : get_elem? bits i ≡ some false
  pub earlier : (j : ℕ) → j < i → get_elem? bits j ≡ some true

earlier_shifted :
    (bits : List Bool) (i : ℕ)
    → ((j : ℕ) → j < i → get_elem? bits j ≡ some true)
    → (j : ℕ) → j < suc i
    → get_elem? (true ∷ bits) j ≡ some true
earlier_shifted bits i h zero l = refl
earlier_shifted bits i h (suc j) l = h j (omega arith)

shifted : (bits : List Bool) (i : ℕ) → FirstOpen bits i → FirstOpen (true ∷ bits) (suc i)
shifted bits i first = record {
  missing = first.missing;
  earlier = earlier_shifted bits i first.earlier;
}

position-FirstOpen : (bits : List Bool) (i : ℕ) → position bits ≡ some i → FirstOpen bits i
unfolding position behind
position-FirstOpen [] i e = cc
position-FirstOpen (false ∷ bits) zero e = record {
  missing = refl;
  earlier = λ j l. absurd (omega arith);
}
position-FirstOpen (false ∷ bits) (suc i) e = ground (arith, e)
position-FirstOpen (true ∷ bits) i e = elim (Option-cases (position bits)) [
  | inl none_left ↦ let never = rw none_left at e in cc
  | inr (k, at) ↦
      let there = rw at at e in
      let same : suc k ≡ i = ground (arith, there) in
      rw (sym same) (shifted bits k (position-FirstOpen bits k at))
]

position-none : (bits : List Bool) → position bits ≡ none → all_set bits ≡ true
unfolding position behind all_set
position-none [] e = refl
position-none (false ∷ bits) e = cc
position-none (true ∷ bits) e = elim (Option-cases (position bits)) [
  | inl none_left ↦ position-none bits none_left
  | inr (i, at) ↦ let never = rw at at e in cc
]

-- A file has no chunk left to ask for: it is not open, or all its chunks are set.
abbrev pub Settled : FileState → Type 0
Settled f = (is_open f.status ≡ false) ⊎ (all_set f.completed_chunks ≡ true)

next_in-none : (files : List FileState) → next_in files ≡ none → All Settled files
unfolding next_in found
next_in-none [] e = tt
next_in-none (f ∷ files) e = elim (Bool-cases (is_open f.status)) [
  | inr shut ↦ (inl shut, next_in-none files (rw shut at e))
  | inl still ↦ elim (Option-cases (position f.completed_chunks)) [
    | inl full ↦
        (inr (position-none f.completed_chunks full), next_in-none files (rw (still, full) at e))
    | inr (i, at) ↦ let never = rw (still, at) at e in cc
  ]
]

-- There is no next chunk only if every file has none to ask for: it is not open, or all its chunks
-- are set.
next_chunk-Settled : (s : TransferState) → next_chunk s ≡ none → All Settled s.files
unfolding next_chunk
next_chunk-Settled s e = next_in-none s.files e

-- The chunk of a file that is asked for next, the files before it having none.
pub record NextOf (files : List FileState) (k c : ℕ) : Type 0 where
  pub place : ℕ
  pub file : FileState
  pub stands : get_elem? files place ≡ some file
  pub numbered : file.file_index ≡ k
  pub still_open : is_open file.status ≡ true
  pub first : FirstOpen file.completed_chunks c
  pub before : (j : ℕ) (g : FileState) → j < place → get_elem? files j ≡ some g → Settled g

before-Settled :
    (f : FileState) (files : List FileState) (n : ℕ)
    → Settled f
    → ((j : ℕ) (g : FileState) → j < n → get_elem? files j ≡ some g → Settled g)
    → (j : ℕ) (g : FileState) → j < suc n
    → get_elem? (f ∷ files) j ≡ some g
    → Settled g
before-Settled f files n settled h zero g l e = let same : f ≡ g = cc in subst Settled same settled
before-Settled f files n settled h (suc j) g l e = h j g (omega arith) e

NextOf-cons :
    (f : FileState) (files : List FileState) (k c : ℕ)
    → Settled f
    → NextOf files k c
    → NextOf (f ∷ files) k c
NextOf-cons f files k c settled n = record {
  place = suc n.place;
  file = n.file;
  stands = n.stands;
  numbered = n.numbered;
  still_open = n.still_open;
  first = n.first;
  before = before-Settled f files n.place settled n.before;
}

next_in-NextOf : (files : List FileState) (k c : ℕ) → next_in files ≡ some (k, c) → NextOf files k c
unfolding next_in found
next_in-NextOf [] k c e = cc
next_in-NextOf (f ∷ files) k c e = elim (Bool-cases (is_open f.status)) [
  | inr shut ↦ NextOf-cons f files k c (inl shut) (next_in-NextOf files k c (rw shut at e))
  | inl still ↦ elim (Option-cases (position f.completed_chunks)) [
    | inl full ↦
        NextOf-cons f files k c (inr (position-none f.completed_chunks full))
          (next_in-NextOf files k c (rw (still, full) at e))
    | inr (i, at) ↦
        let there = rw (still, at) at e in
        let same : i ≡ c = cc in
        record {
          place = 0;
          file = f;
          stands = refl;
          numbered = cc;
          still_open = still;
          first =
              subst (FirstOpen f.completed_chunks) same
                (position-FirstOpen f.completed_chunks i at);
          before = λ j g l d. absurd (omega arith);
        }
  ]
]

-- The next chunk is the first that is not set, of the first file that has one to ask for: that file is
-- pending or in progress, and no file before it has a chunk to ask for.
next_chunk-NextOf : (s : TransferState) (k c : ℕ) → next_chunk s ≡ some (k, c) → NextOf s.files k c
unfolding next_chunk
next_chunk-NextOf s k c e = next_in-NextOf s.files k c e
