-- ===== src/History/Records.antt =====
-- history.rs: what `recent` lists.
use p2pfile_transfer.Common.{
  ℕ, zero, suc, ◌≤◌, ◌≡◌, refl, ap, ◌∙◌, inl, inr, List, [], ◌∷◌, ◌++◌, arith, ◌==◌, leb, take,
  drop, length, length-take, min, Bool-cases, if◌then◌else◌,
}
use p2pfile_transfer.History.{
  TransferRecord, TransferHistory, filter, insert_newest, newest_first, recent,
}

-- No record starts later than the one before it.
abbrev pub NoneLater : ℕ → List TransferRecord → Type 0
NoneLater time [] = Unit {0}
NoneLater time (r ∷ records) = (r.start_time ≤ time) × NoneLater r.start_time records

abbrev pub NewestFirst : List TransferRecord → Type 0
NewestFirst [] = Unit {0}
NewestFirst (r ∷ records) = NoneLater r.start_time records

-- The records that started at a time.
abbrev pub started_at : ℕ → List TransferRecord → List TransferRecord
started_at time records = filter (λ r. r.start_time == time) records

insert_newest-NoneLater :
    (r : TransferRecord) (records : List TransferRecord) (time : ℕ)
    → r.start_time ≤ time
    → NoneLater time records
    → NoneLater time (insert_newest r records)
unfolding insert_newest
insert_newest-NoneLater r [] time l h = (l, tt)
insert_newest-NoneLater r (x ∷ records) time l (first, later) =
    elim (Bool-cases (leb x.start_time r.start_time)) [
      | inl e ↦ rw e (l, (ground (arith, e), later))
      | inr e ↦
          rw e (first, insert_newest-NoneLater r records x.start_time (ground (arith, e)) later)
    ]

insert_newest-NewestFirst :
    (r : TransferRecord) (records : List TransferRecord)
    → NewestFirst records
    → NewestFirst (insert_newest r records)
unfolding insert_newest
insert_newest-NewestFirst r [] h = tt
insert_newest-NewestFirst r (x ∷ records) h = elim (Bool-cases (leb x.start_time r.start_time)) [
  | inl e ↦ rw e (ground (arith, e), h)
  | inr e ↦ rw e (insert_newest-NoneLater r records x.start_time (ground (arith, e)) h)
]

newest_first-NewestFirst : (records : List TransferRecord) → NewestFirst (newest_first records)
unfolding newest_first
newest_first-NewestFirst [] = tt
newest_first-NewestFirst (r ∷ records) =
    insert_newest-NewestFirst r (newest_first records) (newest_first-NewestFirst records)

started_at-insert_newest :
    (time : ℕ) (r : TransferRecord) (records : List TransferRecord)
    → started_at time (insert_newest r records) ≡ started_at time (r ∷ records)
unfolding insert_newest filter
started_at-insert_newest time r [] = refl
started_at-insert_newest time r (x ∷ records) =
    ground (arith, started_at-insert_newest time r records)

started_at-newest_first :
    (time : ℕ) (records : List TransferRecord)
    → started_at time (newest_first records) ≡ started_at time records
unfolding newest_first filter
started_at-newest_first time [] = refl
started_at-newest_first time (r ∷ records) =
    started_at-insert_newest time r (newest_first records)
    ∙ ap (λ l. if r.start_time == time then r ∷ l else l) (started_at-newest_first time records)

take_and_drop : {A : Type 0} (n : ℕ) (l : List A) → take n l ++ drop n l ≡ l
take_and_drop zero l = refl
take_and_drop (suc n) [] = refl
take_and_drop (suc n) (x ∷ l) = ap (λ k. x ∷ k) (take_and_drop n l)

length-insert_newest :
    (r : TransferRecord) (records : List TransferRecord)
    → length (insert_newest r records) ≡ suc (length records)
unfolding insert_newest
length-insert_newest r [] = refl
length-insert_newest r (x ∷ records) = ground (arith, length-insert_newest r records)

length-newest_first :
    (records : List TransferRecord) → length (newest_first records) ≡ length records
unfolding newest_first
length-newest_first [] = refl
length-newest_first (r ∷ records) =
    length-insert_newest r (newest_first records) ∙ ap suc (length-newest_first records)

-- What `recent` lists and what it leaves out are together the records of the history, those of one
-- start time in the order in which they were added; none starts later than one listed before it; and
-- it lists as many as it may.
recent_newest :
    (limit : ℕ) (h : TransferHistory)
    → (others : List TransferRecord) × NewestFirst (recent limit h ++ others)
      × ((time : ℕ) → started_at time (recent limit h ++ others) ≡ started_at time h.records)
      × (length (recent limit h) ≡ min limit (length h.records))
unfolding recent
recent_newest limit h =
    let sorted = newest_first h.records in
    let whole = take_and_drop limit sorted in
    (
      drop limit sorted,
      rw whole (newest_first-NewestFirst h.records),
      λ time. rw whole (started_at-newest_first time h.records),
      length-take limit sorted ∙ ap (min limit) (length-newest_first h.records),
    )
