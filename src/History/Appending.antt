-- ===== src/History/Appending.antt =====
-- history.rs: an append to the history file under failures and crashes.
use p2pfile_transfer.Common.{
  ℕ, ◌≡◌, refl, sym, ap, ◌∙◌, ◌⊎◌, inl, inr, List, [], ◌∷◌, ◌++◌, Option, none, some, subst,
}
use p2pfile_transfer.Common.Maps.{bytes_key, get}
use p2pfile_transfer.Errors.{Result, ok, err, panic}
use p2pfile_transfer.Effects.{M, and_then}
use p2pfile_transfer.Files.{FilePath, Files, touch, open_or_create, replace_file}
use p2pfile_transfer.Files.Atomic.{and_then-by, ApartFrom, Replaced, replace_file-Replaced}
use p2pfile_transfer.Files.Calls.{
  Still, touch-Still, touch_no_panic, open_or_create-Apart, open_or_create_no_panic,
}
use p2pfile_transfer.History.Loading.{
  log, Corrupt, log-to_vec, quarantine, Aside, Loaded, load_or_quarantine-Loaded, no_suffix,
  tmp_is_other,
}
use p2pfile_transfer.History.{
  TransferRecord, TransferHistory, add_record, Json, sibling_path, lock_suffix, tmp_suffix,
  load_or_quarantine, encoded, append_record_locked,
}

module _ (json : Json) (path : FilePath) (secs : List ℕ) where
  -- What an append leaves: the records with the new one behind them, or what was there before.
  abbrev pub Appended : TransferRecord → Option (List ℕ) → Result (Unit {0}) × Files → Type 0
  Appended r before (ok _, t) =
      (log json (get t.contents path) ≡ log json before ++ (r ∷ []))
      × ((Corrupt json before → ⊥) ⊎ (get t.contents (quarantine json path secs) ≡ before))
  Appended r before (err e, t) = Aside json path secs before t
  Appended r before (panic, t) = ⊥

  module _ (r : TransferRecord) (before : Option (List ℕ)) where
    abbrev SetAside : Files → Type 0
    SetAside t =
        (get t.contents path ≡ before × (Corrupt json before → ⊥))
        ⊎ (Corrupt json before
            × (get t.contents path ≡ none)
            × (get t.contents (quarantine json path secs) ≡ before))

    kept_by :
        (t u : Files)
        → get u.contents path ≡ get t.contents path
        → get u.contents (quarantine json path secs) ≡ get t.contents (quarantine json path secs)
        → SetAside t
        → Aside json path secs before u
    kept_by t u p q (inl (same, _)) = inl (p ∙ same)
    kept_by t u p q (inr (bad, gone, put)) = inr (bad, p ∙ gone, q ∙ put)

    stored-Appended :
        (h : TransferHistory) (bytes : List ℕ) (t : Files)
        → h.records ≡ log json before
        → json.to_vec (add_record r h) ≡ some bytes
        → SetAside t
        → (p : Result (Unit {0}) × Files) → Replaced (path ++ tmp_suffix) path bytes t p
        → Appended r before p
    unfolding add_record
    stored-Appended h bytes t known e aside (ok _, u) (now, others) = (
      ap (log json) now ∙ log-to_vec json (add_record r h) bytes e ∙ ap (λ l. l ++ (r ∷ [])) known,
      elim aside [
        | inl (_, sound) ↦ inl sound
        | inr (bad, gone, put) ↦ inr (
            others (quarantine json path secs) (tmp_is_other path secs)
              (λ d. no_suffix path 46 _ (sym d))
            ∙ put)
      ],
    )
    stored-Appended h bytes t known e aside (err x, u) apart =
        kept_by t u (apart path (no_suffix path 46 _))
          (apart (quarantine json path secs) (tmp_is_other path secs)) aside
    stored-Appended h bytes t known e aside (panic, u) h' = h'

    -- What follows the load.
    abbrev rest : TransferHistory → M Files (Unit {0})
    rest h t =
        and_then (encoded json (json.to_vec (add_record r h)), t)
          (λ bytes. replace_file (path ++ tmp_suffix) path bytes)

    rest-Appended :
        (h : TransferHistory) (t : Files)
        → h.records ≡ log json before
        → SetAside t
        → Appended r before (rest h t)
    unfolding encoded
    rest-Appended h t known aside = by_encoding (json.to_vec (add_record r h)) refl
      where
        by_encoding :
            (o : Option (List ℕ))
            → json.to_vec (add_record r h) ≡ o
            → Appended r before (
                and_then
                  (encoded json o, t)
                  (λ bytes. replace_file (path ++ tmp_suffix) path bytes))
        by_encoding none e = kept_by t t refl refl aside
        by_encoding (some bytes) e =
            stored-Appended h bytes t known e aside _
              (replace_file-Replaced (path ++ tmp_suffix) path bytes (no_suffix path 46 _) t)

    continued-Appended :
        (p : Result TransferHistory × Files)
        → Loaded json path secs before p
        → Appended r before (and_then p rest)
    continued-Appended (ok h, t) (known, aside) = rest-Appended h t known aside
    continued-Appended (err e, t) same = inl same
    continued-Appended (panic, t) h = h

  module _ (r : TransferRecord) (s : Files) where
    abbrev before : Option (List ℕ)
    before = get s.contents path

    -- The load and what follows it, from a disk on which the file is as it was.
    abbrev locked : M Files (Unit {0})
    locked t = and_then (load_or_quarantine json path secs t) (rest r before)

    locked-Appended : (t : Files) → get t.contents path ≡ before → Appended r before (locked t)
    locked-Appended t same =
        subst (λ b. Appended r b (and_then (load_or_quarantine json path secs t) (rest r b))) same
          (continued-Appended r (get t.contents path) (load_or_quarantine json path secs t)
            (load_or_quarantine-Loaded json path secs t))

    waited-Appended :
        (t : Files)
        → get t.contents path ≡ before
        → Appended r before (and_then (touch t) (λ _. locked))
    waited-Appended t same =
        and_then-by (Appended r before) (touch t) (λ _. locked)
          (λ _ u e. locked-Appended u (subst (λ p. Still t p.1) e (touch-Still t) path ∙ same))
          (λ x u e. inl (subst (λ p. Still t p.1) e (touch-Still t) path ∙ same))
          (λ u e. touch_no_panic t u e)

    lock : FilePath
    lock = path ++ lock_suffix

    opened-Appended :
        (t : Files)
        → get t.contents path ≡ before
        → Appended r before
            (and_then (open_or_create lock t) (λ _ u. and_then (touch u) (λ _. locked)))
    unfolding lock
    opened-Appended t same =
        and_then-by (Appended r before) (open_or_create lock t)
          (λ _ u. and_then (touch u) (λ _. locked))
          (λ _ u e. waited-Appended u (
            subst (λ p. ApartFrom lock t p.1) e (open_or_create-Apart lock t) path
              (no_suffix path 46 _)
            ∙ same))
          (λ x u e. inl (
            subst (λ p. ApartFrom lock t p.1) e (open_or_create-Apart lock t) path
              (no_suffix path 46 _)
            ∙ same))
          (λ u e. open_or_create_no_panic lock t u e)

    -- Whatever call fails, wherever a write stops, and whatever the history file holds: an append that
    -- reports success leaves a file with the old records and the new one behind them, where a file
    -- that does not parse counts as one without records, and its bytes stand under the quarantine
    -- name; an append that does not leaves the file as it was, or has only put a corrupt one aside.
    pub append_record_locked-Appended :
        Appended r (get s.contents path) (append_record_locked json path r secs s)
    unfolding append_record_locked sibling_path lock
    append_record_locked-Appended =
        and_then-by (Appended r before) (touch s)
          (λ _ t. and_then (open_or_create lock t) (λ _ u. and_then (touch u) (λ _. locked)))
          (λ _ t e. opened-Appended t (subst (λ p. Still s p.1) e (touch-Still s) path))
          (λ x t e. inl (subst (λ p. Still s p.1) e (touch-Still s) path))
          (λ t e. touch_no_panic s t e)
