-- ===== src/History/Journal.antt =====
-- history.rs: the history file as a journal. Calls of any number of processes, which the lock puts in an
-- order, append to it, and the abstract journal is the list of the records that were reported kept.
use p2pfile_transfer.Common.{
  ◌≡◌, refl, sym, ap, ◌∙◌, inl, inr, Bool, true, false, List, [], ◌∷◌, ◌++◌, Option, none, some, ℕ,
  if◌then◌else◌,
}
use p2pfile_transfer.Common.Maps.{bytes_key, get}
use p2pfile_transfer.Errors.{Result, ok, err, panic}
use p2pfile_transfer.Files.{FilePath, Files}
use p2pfile_transfer.History.{TransferRecord, Json, append_record_locked}
use p2pfile_transfer.History.Loading.{log, Corrupt, Aside}
use p2pfile_transfer.History.Appending.{Appended, append_record_locked-Appended}

abbrev pub succeeded : Result (Unit {0}) → Bool
succeeded (ok _) = true
succeeded (err e) = false
succeeded panic = false

-- Appends one behind the other, each with the digits of its time, and which of them succeeded.
unfoldable pub append_all :
    Json → FilePath → List (TransferRecord × List ℕ) → Files → List Bool × Files
append_all json path [] s = ([], s)
append_all json path ((r, secs) ∷ calls) s =
    let first = append_record_locked json path r secs s in
    let others = append_all json path calls first.1 in (succeeded first.0 ∷ others.0, others.1)

-- The abstract journal: a record is added, or it is not.
unfoldable pub journal :
    List TransferRecord → List (TransferRecord × List ℕ) → List Bool → List TransferRecord
journal records [] outcomes = records
journal records (call ∷ calls) [] = records
journal records ((r, _) ∷ calls) (kept ∷ outcomes) =
    journal (if kept then records ++ (r ∷ []) else records) calls outcomes

module _ (json : Json) (path : FilePath) where
  unreadable_log : (o : Option (List ℕ)) → Corrupt json o → log json o ≡ []
  unfolding log
  unreadable_log none c = refl
  unreadable_log (some []) c = refl
  unreadable_log (some (b ∷ bytes)) c = rw c refl

  unchanged_log :
      (secs : List ℕ) (before : Option (List ℕ)) (t : Files)
      → Aside json path secs before t
      → log json (get t.contents path) ≡ log json before
  unfolding log
  unchanged_log secs before t (inl same) = ap (log json) same
  unchanged_log secs before t (inr (bad, gone, _)) =
      ap (log json) gone ∙ sym (unreadable_log before bad)

  step_log :
      (r : TransferRecord) (secs : List ℕ) (before : Option (List ℕ))
      (p : Result (Unit {0}) × Files)
      → Appended json path secs r before p
      → log json (get p.1.contents path)
        ≡ (if succeeded p.0 then log json before ++ (r ∷ []) else log json before)
  step_log r secs before (ok _, t) (now, _) = now
  step_log r secs before (err e, t) aside = unchanged_log secs before t aside
  step_log r secs before (panic, t) h = absurd h

  -- The history file refines the journal: whatever calls fail and wherever a write stops, the file
  -- holds what it held, and behind it exactly the records whose append reported success, in the order
  -- of the calls; a file that does not parse holds none.
  pub append_all-journal :
      (calls : List (TransferRecord × List ℕ)) (s : Files)
      → log json (get (append_all json path calls s).1.contents path)
        ≡ journal (log json (get s.contents path)) calls (append_all json path calls s).0
  unfolding append_all journal
  append_all-journal [] s = refl
  append_all-journal ((r, secs) ∷ calls) s =
      let first = append_record_locked json path r secs s in
      append_all-journal calls first.1
      ∙ ap (λ l. journal l calls (append_all json path calls first.1).0)
          (step_log r secs (get s.contents path) first
            (append_record_locked-Appended json path secs r s))
