-- ===== src/Files/Calls.antt =====
-- Files.antt: what single calls leave.
use p2pfile_transfer.Common.{ℕ, ◌≡◌, ◌≢◌, refl, ap, ◌∙◌, List, [], Option, none, some}
use p2pfile_transfer.Common.Maps.{
  bytes_key, get, insert, remove, get-insert_same, get-insert_other, get-remove_same,
}
use p2pfile_transfer.Errors.{Result, ok, err, panic}
use p2pfile_transfer.Effects.{and_then}
use p2pfile_transfer.Files.{FilePath, Files, touch, moved, rename, created, open_or_create, read}
use p2pfile_transfer.Files.Atomic.{Ends, attempt-Ends, by_ends, no_panic, ApartFrom}

abbrev pub Still : Files → Files → Type 0
Still s t = (q : FilePath) → get t.contents q ≡ get s.contents q

touch-Ends : (s : Files) → Ends s.contents (λ _. s.contents) (touch s)
unfolding touch
touch-Ends s = attempt-Ends _ _ s

pub touch-Still : (s : Files) → Still s (touch s).1
touch-Still s q =
    by_ends _ _ (λ c. get c q ≡ get s.contents q) (touch s) (touch-Ends s) refl (λ n. refl)

pub touch_no_panic : (s t : Files) → touch s ≡ (panic, t) → ⊥
touch_no_panic s t e = no_panic _ _ _ t (touch-Ends s) e

-- The read of a file tells what it has.
abbrev pub Told : FilePath → Files → Result (Option (List ℕ)) × Files → Type 0
Told path s (ok o, t) = Still s t × (o ≡ get s.contents path)
Told path s (err e, t) = Still s t
Told path s (panic, t) = ⊥

pub read-Told : (path : FilePath) (s : Files) → Told path s (read path s)
unfolding read
read-Told path s = told (touch s) (touch-Still s) (λ t. touch_no_panic s t)
  where
    told :
        (r : Result (Unit {0}) × Files)
        → Still s r.1
        → ((t : Files) → r ≡ (panic, t) → ⊥)
        → Told path s (and_then r (λ _ t. (ok (get t.contents path), t)))
    told (ok _, t) h n = (h, h path)
    told (err e, t) h n = h
    told (panic, t) h n = n t refl

module _ (path : FilePath) (s : Files) where
  open_or_create-Ends :
      Ends (created s.contents path (get s.contents path)) (λ _. s.contents) (open_or_create path s)
  unfolding open_or_create
  open_or_create-Ends = attempt-Ends _ _ s

  created_others :
      (o : Option (List ℕ)) (q : FilePath)
      → path ≢ q
      → get (created s.contents path o) q ≡ get s.contents q
  unfolding created
  created_others none q d = get-insert_other s.contents path q [] d
  created_others (some b) q d = refl

  pub open_or_create-Apart : ApartFrom path s (open_or_create path s).1
  open_or_create-Apart q d =
      by_ends _ _ (λ c. get c q ≡ get s.contents q) (open_or_create path s) open_or_create-Ends
        (created_others (get s.contents path) q d) (λ n. refl)

  pub open_or_create_no_panic : (t : Files) → open_or_create path s ≡ (panic, t) → ⊥
  open_or_create_no_panic t e = no_panic _ _ _ t open_or_create-Ends e

-- The file stands under the other name, or nothing has changed.
abbrev pub Moved : FilePath → FilePath → List ℕ → Files → Result (Unit {0}) × Files → Type 0
Moved from to bytes s (ok _, t) = (get t.contents from ≡ none) × (get t.contents to ≡ some bytes)
Moved from to bytes s (err e, t) = Still s t
Moved from to bytes s (panic, t) = ⊥

module _ (from to : FilePath) (bytes : List ℕ) (s : Files) (differ : to ≢ from)
    (there : get s.contents from ≡ some bytes) where
  pub rename-Moved : Moved from to bytes s (rename from to s)
  unfolding rename moved
  rename-Moved = rw there (ended _ (attempt-Ends _ (λ _. s.contents) s))
    where
      ended :
          (r : Result (Unit {0}) × Files)
          → Ends (insert (remove s.contents from) to bytes) (λ _. s.contents) r
          → Moved from to bytes s r
      ended (ok _, u) e = (
        ap (λ c. get c from) e
            ∙ get-insert_other (remove s.contents from) to from bytes differ
            ∙ get-remove_same s.contents from,
        ap (λ c. get c to) e ∙ get-insert_same (remove s.contents from) to bytes,
      )
      ended (err x, u) (n, e) = λ q. ap (λ c. get c q) e
      ended (panic, u) e = e
