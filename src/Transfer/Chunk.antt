-- ===== src/Transfer/Chunk.antt =====
-- The part of a file that one chunk carries, and how writing it changes the receiver's file.
use p2pfile_transfer.Common.{
  ℕ, ◌+◌, ◌-◌, ◌*◌, ◌≤◌, ◌<◌, ◌≡◌, sym, ap, ◌∙◌, ◌⊎◌, inl, inr, List, arith, length, length-take,
  length-drop, take, drop, get_elem?, get_elem?-take, get_elem?-drop, min, get_elem?-some,
}
use p2pfile_transfer.Transfer.Disk.{write_at}
use p2pfile_transfer.Transfer.Disk.Places.{
  length-write_at, write_at_inside, write_at_before, write_at_behind,
}

-- The bytes `[k * cs, (k + 1) * cs)` of the file, as far as it goes.
abbrev pub chunk_of : List ℕ → ℕ → ℕ → List ℕ
chunk_of file cs k = take cs (drop (k * cs) file)

pub length-chunk_of :
    (file : List ℕ) (cs k : ℕ) → length (chunk_of file cs k) ≡ min cs (length file - k * cs)
length-chunk_of file cs k =
    length-take cs (drop (k * cs) file) ∙ ap (min cs) (length-drop (k * cs) file)

lt_or_eq_or_gt : (a b : ℕ) → (a < b) ⊎ ((a ≡ b) ⊎ (b < a))
lt_or_eq_or_gt a b = grind arith

pub mul_step : (a b c : ℕ) → a < b → a * c + c ≤ b * c
mul_step a b c h = grind arith

module _ (file : List ℕ) (cs k : ℕ) where
  -- The chunk's own places after the write.
  write_own :
      (old : List ℕ) (j : ℕ)
      → j < cs
      → k * cs + j < length file
      → get_elem? (write_at (k * cs) (chunk_of file cs k) old) (k * cs + j)
        ≡ get_elem? file (k * cs + j)
  write_own old j h l =
      write_at_inside (k * cs) (chunk_of file cs k) old j (omega (arith, length-chunk_of file cs k))
      ∙ get_elem?-take cs (drop (k * cs) file) j h
      ∙ get_elem?-drop (k * cs) file j

  -- The places of another chunk keep what they held.
  write_other :
      (old : List ℕ) (k' j : ℕ)
      → (k' < k) ⊎ (k < k')
      → j < cs
      → k' * cs + j < length file
      → get_elem? old (k' * cs + j) ≡ get_elem? file (k' * cs + j)
      → get_elem? (write_at (k * cs) (chunk_of file cs k) old) (k' * cs + j)
        ≡ get_elem? file (k' * cs + j)
  write_other old k' j (inl before) h l e =
      let (a, has) = get_elem?-some file (k' * cs + j) l in
      write_at_before (k * cs) (chunk_of file cs k) old (k' * cs + j)
        (omega (arith, mul_step k' k cs before)) (e ∙ has)
      ∙ sym has
  write_other old k' j (inr behind) h l e =
      let (a, has) = get_elem?-some file (k' * cs + j) l in
      write_at_behind (k * cs) (chunk_of file cs k) old (k' * cs + j)
        (omega (arith, mul_step k k' cs behind, length-chunk_of file cs k)) (e ∙ has)
      ∙ sym has

  -- Where chunk `k'` is right, it stays right, and chunk `k` becomes right.
  pub write_right :
      (old : List ℕ) (k' j : ℕ)
      → j < cs
      → k' * cs + j < length file
      → (k' ≡ k) ⊎ (get_elem? old (k' * cs + j) ≡ get_elem? file (k' * cs + j))
      → get_elem? (write_at (k * cs) (chunk_of file cs k) old) (k' * cs + j)
        ≡ get_elem? file (k' * cs + j)
  write_right old k' j h l (inl same) = rw same (write_own old j h (rw same at l))
  write_right old k' j h l (inr e) = elim (lt_or_eq_or_gt k' k) [
    | inl before ↦ write_other old k' j (inl before) h l e
    | inr (inl same) ↦ rw same (write_own old j h (rw same at l))
    | inr (inr behind) ↦ write_other old k' j (inr behind) h l e
  ]

  pub length-write_own :
      (old : List ℕ)
      → k * cs ≤ length file
      → length old ≤ length file
      → length (write_at (k * cs) (chunk_of file cs k) old) ≤ length file
  length-write_own old h l =
      omega (arith, length-write_at (k * cs) (chunk_of file cs k) old, length-chunk_of file cs k)
