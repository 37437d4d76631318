-- ===== src/History/Loading.antt =====
-- history.rs: what is loaded from the history file, and what becomes of a corrupt one.
use p2pfile_transfer.Common.{
  ℕ, ◌≡◌, ◌≢◌, refl, sym, ap, ◌∙◌, ◌⊎◌, inl, inr, List, [], ◌∷◌, ◌++◌, Option, none, some, subst,
  length, length-append, arith,
}
use p2pfile_transfer.Common.Maps.{bytes_key, get}
use p2pfile_transfer.Errors.{Result, ok, err, panic}
use p2pfile_transfer.Effects.{and_then}
use p2pfile_transfer.Files.{FilePath, Files, read, rename}
use p2pfile_transfer.Files.Calls.{Told, read-Told, Moved, rename-Moved}
use p2pfile_transfer.History.{
  TransferRecord, TransferHistory, new_history, Json, sibling_path, tmp_suffix, corrupt_suffix,
  parsed, of_bytes, load_or_quarantine,
}

pub no_suffix : (path : FilePath) (b : ℕ) (suffix : List ℕ) → path ++ (b ∷ suffix) ≢ path
no_suffix path b suffix e =
    let l : length (path ++ (b ∷ suffix)) ≡ length path = ap length e in
    absurd (omega (arith, l, length-append path (b ∷ suffix)))

same_suffix : (path xs ys : List ℕ) → path ++ xs ≡ path ++ ys → xs ≡ ys
same_suffix [] xs ys e = e
same_suffix (b ∷ path) xs ys e = same_suffix path xs ys (let d : path ++ xs ≡ path ++ ys = cc in d)

pub tmp_is_other : (path secs : List ℕ) → path ++ tmp_suffix ≢ path ++ corrupt_suffix secs
tmp_is_other path secs e =
    let d = same_suffix path tmp_suffix (corrupt_suffix secs) e in let never : ⊥ = cc in never

module _ (json : Json) where
  -- What a history file holds: a file that is missing, empty or corrupt holds no records.
  records_of : Option TransferHistory → List TransferRecord
  records_of none = []
  records_of (some h) = h.records

  unfoldable pub log : Option (List ℕ) → List TransferRecord
  unfolding records_of
  log none = []
  log (some []) = []
  log (some (b ∷ bytes)) = records_of (json.from_slice (b ∷ bytes))

  -- A file that does not parse.
  abbrev pub Corrupt : Option (List ℕ) → Type 0
  Corrupt none = ⊥
  Corrupt (some []) = ⊥
  Corrupt (some (b ∷ bytes)) = json.from_slice (b ∷ bytes) ≡ none

  pub log-to_vec :
      (h : TransferHistory) (bytes : List ℕ)
      → json.to_vec h ≡ some bytes
      → log (some bytes) ≡ h.records
  unfolding log records_of
  log-to_vec h [] e =
      let d = json.from_slice-to_vec h [] e in
      let n = json.from_nothing in let never : ⊥ = cc in absurd never
  log-to_vec h (b ∷ bytes) e = rw (json.from_slice-to_vec h (b ∷ bytes) e) refl

  module _ (path : FilePath) (secs : List ℕ) where
    abbrev pub quarantine : FilePath
    quarantine = path ++ corrupt_suffix secs

    -- The file is as it was, or a corrupt one stands under its other name.
    abbrev pub Aside : Option (List ℕ) → Files → Type 0
    Aside before t =
        (get t.contents path ≡ before)
        ⊎ (Corrupt before × (get t.contents path ≡ none) × (get t.contents quarantine ≡ before))

    -- What is loaded from a file, with a corrupt one put aside.
    abbrev pub Loaded : Option (List ℕ) → Result TransferHistory × Files → Type 0
    Loaded before (ok h, t) =
        (h.records ≡ log before)
        × ((get t.contents path ≡ before × (Corrupt before → ⊥))
            ⊎ (Corrupt before
                × (get t.contents path ≡ none)
                × (get t.contents quarantine ≡ before)))
    Loaded before (err e, t) = get t.contents path ≡ before
    Loaded before (panic, t) = ⊥

    renamed-Loaded :
        (b : ℕ) (bytes : List ℕ) (s : Files)
        → get s.contents path ≡ some (b ∷ bytes)
        → json.from_slice (b ∷ bytes) ≡ none
        → (r : Result (Unit {0}) × Files) → Moved path quarantine (b ∷ bytes) s r
        → Loaded (some (b ∷ bytes)) (and_then r (λ _ t. (ok new_history, t)))
    unfolding log records_of
    renamed-Loaded b bytes s there bad (ok _, t) (gone, put) = (rw bad refl, inr (bad, gone, put))
    renamed-Loaded b bytes s there bad (err e, t) h = h path ∙ there
    renamed-Loaded b bytes s there bad (panic, t) h = h

    parsed-Loaded :
        (b : ℕ) (bytes : List ℕ) (s : Files)
        → get s.contents path ≡ some (b ∷ bytes)
        → (h : Option TransferHistory) → json.from_slice (b ∷ bytes) ≡ h
        → Loaded (some (b ∷ bytes)) (parsed json path quarantine h s)
    unfolding parsed log records_of
    parsed-Loaded b bytes s there none e =
        renamed-Loaded b bytes s there e (rename path quarantine s)
          (rename-Moved path quarantine (b ∷ bytes) s (no_suffix path 46 _) there)
    parsed-Loaded b bytes s there (some h) e =
        (rw e refl, inl (there, λ bad. let never : ⊥ = cc in never))

    of_bytes-Loaded :
        (o : Option (List ℕ)) (s : Files)
        → get s.contents path ≡ o
        → Loaded o (of_bytes json path quarantine o s)
    unfolding of_bytes log
    of_bytes-Loaded none s e = (refl, inl (e, λ bad. bad))
    of_bytes-Loaded (some []) s e = (refl, inl (e, λ bad. bad))
    of_bytes-Loaded (some (b ∷ bytes)) s e =
        parsed-Loaded b bytes s e (json.from_slice (b ∷ bytes)) refl

    pub load_or_quarantine-Loaded :
        (s : Files) → Loaded (get s.contents path) (load_or_quarantine json path secs s)
    unfolding load_or_quarantine sibling_path
    load_or_quarantine-Loaded s = after_read (read path s) (read-Told path s)
      where
        after_read :
            (r : Result (Option (List ℕ)) × Files)
            → Told path s r
            → Loaded (get s.contents path) (and_then r (of_bytes json path quarantine))
        after_read (ok o, t) (still, told) =
            subst (λ b. Loaded b (of_bytes json path quarantine o t)) told
              (of_bytes-Loaded o t (still path ∙ sym told))
        after_read (err e, t) still = still path
        after_read (panic, t) h = h
