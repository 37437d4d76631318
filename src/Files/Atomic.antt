-- ===== src/Files/Atomic.antt =====
-- The replacement of a file by a written sibling is atomic: what a failure or a crash leaves.
use p2pfile_transfer.Common.{ℕ, ◌≡◌, ◌≢◌, refl, sym, ap, ◌∙◌, List, [], ◌∷◌, some, take, subst}
use p2pfile_transfer.Common.Maps.{
  bytes_key, get, insert, remove, get-insert_same, get-insert_other, get-remove_other,
}
use p2pfile_transfer.Errors.{Error, Result, ok, err, panic}
use p2pfile_transfer.Effects.{M, and_then}
use p2pfile_transfer.Files.{
  FilePath, Contents, Fault, fine, stops, Files, attempt_with, attempt, touch, open_truncated,
  write_all, moved, rename, replace_file,
}

-- How a call ends: it worked, or it failed and left one of these.
abbrev pub Ends : Contents → (ℕ → Contents) → Result (Unit {0}) × Files → Type 0
Ends good bad (ok _, t) = t.contents ≡ good
Ends good bad (err e, t) = (n : ℕ) × (t.contents ≡ bad n)
Ends good bad (panic, t) = ⊥

attempt_with-Ends :
    (l : List Fault) (good : Contents) (bad : ℕ → Contents) (s : Files)
    → Ends good bad (attempt_with l good bad s)
unfolding attempt_with
attempt_with-Ends [] good bad s = refl
attempt_with-Ends (fine ∷ l) good bad s = refl
attempt_with-Ends (stops n ∷ l) good bad s = (n, refl)

pub attempt-Ends :
    (good : Contents) (bad : ℕ → Contents) (s : Files) → Ends good bad (attempt good bad s)
unfolding attempt
attempt-Ends good bad s = attempt_with-Ends s.faults good bad s

module _ {A B : Type 0} (Q : Result B × Files → Type 0) where
  -- A property of a sequence, from its parts.
  pub and_then-by :
      (r : Result A × Files) (f : A → M Files B)
      → ((a : A) (t : Files) → r ≡ (ok a, t) → Q (f a t))
      → ((e : Error) (t : Files) → r ≡ (err e, t) → Q (err e, t))
      → ((t : Files) → r ≡ (panic, t) → Q (panic, t))
      → Q (and_then r f)
  and_then-by (ok a, t) f good bad worse = good a t refl
  and_then-by (err e, t) f good bad worse = bad e t refl
  and_then-by (panic, t) f good bad worse = worse t refl

module _ (good : Contents) (bad : ℕ → Contents) where
  pub by_ends :
      (P : Contents → Type 0) (r : Result (Unit {0}) × Files)
      → Ends good bad r
      → P good
      → ((n : ℕ) → P (bad n))
      → P r.1.contents
  by_ends P (ok _, t) e g b = subst P (sym e) g
  by_ends P (err x, t) (n, e) g b = subst P (sym e) (b n)
  by_ends P (panic, t) e g b = absurd e

  pub good_contents :
      (r : Result (Unit {0}) × Files) (t : Files)
      → Ends good bad r
      → r ≡ (ok tt, t)
      → t.contents ≡ good
  good_contents (ok _, u) t e same = ap (λ p. p.1.contents) (sym same) ∙ e
  good_contents (err x, u) t e same = cc
  good_contents (panic, u) t e same = absurd e

  pub no_panic : (r : Result (Unit {0}) × Files) (t : Files) → Ends good bad r → r ≡ (panic, t) → ⊥
  no_panic (ok _, u) t e same = cc
  no_panic (err x, u) t e same = cc
  no_panic (panic, u) t e same = e

-- Only the temporary file may differ.
abbrev pub ApartFrom : FilePath → Files → Files → Type 0
ApartFrom tmp s t = (q : FilePath) → tmp ≢ q → get t.contents q ≡ get s.contents q

-- The file is replaced, or only the temporary file may differ.
abbrev pub Replaced : FilePath → FilePath → List ℕ → Files → Result (Unit {0}) × Files → Type 0
Replaced tmp path bytes s (ok _, t) =
    (get t.contents path ≡ some bytes)
    × ((q : FilePath) → tmp ≢ q → path ≢ q → get t.contents q ≡ get s.contents q)
Replaced tmp path bytes s (err e, t) = ApartFrom tmp s t
Replaced tmp path bytes s (panic, t) = ⊥

module _ (tmp path : FilePath) (bytes : List ℕ) (differ : tmp ≢ path) where
  open_truncated-Ends :
      (s : Files) → Ends (insert s.contents tmp []) (λ _. s.contents) (open_truncated tmp s)
  unfolding open_truncated
  open_truncated-Ends s = attempt-Ends _ _ s

  write_all-Ends :
      (s : Files)
      → Ends
          (insert s.contents tmp bytes)
          (λ n. insert s.contents tmp (take n bytes))
          (write_all tmp bytes s)
  unfolding write_all
  write_all-Ends s = attempt-Ends _ _ s

  touch-Ends : (s : Files) → Ends s.contents (λ _. s.contents) (touch s)
  unfolding touch
  touch-Ends s = attempt-Ends _ _ s

  opened-Apart : (s : Files) → ApartFrom tmp s (open_truncated tmp s).1
  opened-Apart s q other =
      by_ends _ _ (λ c. get c q ≡ get s.contents q) (open_truncated tmp s) (open_truncated-Ends s)
        (get-insert_other s.contents tmp q [] other) (λ n. refl)

  written-Apart : (s : Files) → ApartFrom tmp s (write_all tmp bytes s).1
  written-Apart s q other =
      by_ends _ _ (λ c. get c q ≡ get s.contents q) (write_all tmp bytes s) (write_all-Ends s)
        (get-insert_other s.contents tmp q bytes other)
        (λ n. get-insert_other s.contents tmp q (take n bytes) other)

  touched-Apart : (s : Files) → ApartFrom tmp s (touch s).1
  touched-Apart s q other =
      by_ends _ _ (λ c. get c q ≡ get s.contents q) (touch s) (touch-Ends s) refl (λ n. refl)

  module _ (s : Files) where
    renamed-Replaced :
        (t : Files)
        → ApartFrom tmp s t
        → get t.contents tmp ≡ some bytes
        → Replaced tmp path bytes s (rename tmp path t)
    unfolding rename moved
    renamed-Replaced t apart there =
        rw there
          (ended _ (attempt-Ends (insert (remove t.contents tmp) path bytes) (λ _. t.contents) t))
      where
        ended :
            (r : Result (Unit {0}) × Files)
            → Ends (insert (remove t.contents tmp) path bytes) (λ _. t.contents) r
            → Replaced tmp path bytes s r
        ended (ok _, u) e = (
          ap (λ c. get c path) e ∙ get-insert_same (remove t.contents tmp) path bytes,
          λ q off away.
              ap (λ c. get c q) e
              ∙ get-insert_other (remove t.contents tmp) path q bytes away
              ∙ get-remove_other t.contents tmp q off
              ∙ apart q off,
        )
        ended (err x, u) (n, e) = λ q off. ap (λ c. get c q) e ∙ apart q off
        ended (panic, u) e = e

    synced-Replaced :
        (t : Files)
        → ApartFrom tmp s t
        → get t.contents tmp ≡ some bytes
        → Replaced tmp path bytes s (and_then (touch t) (λ _. rename tmp path))
    synced-Replaced t apart there =
        and_then-by (Replaced tmp path bytes s) (touch t) (λ _. rename tmp path)
          (λ _ u e.
            let same : u.contents ≡ t.contents = good_contents _ _ _ u (touch-Ends t) e in
            renamed-Replaced u (λ q off. ap (λ c. get c q) same ∙ apart q off)
              (ap (λ c. get c tmp) same ∙ there))
          (λ x u e q off. subst (λ p. ApartFrom tmp t p.1) e (touched-Apart t) q off ∙ apart q off)
          (λ u e. no_panic _ _ _ u (touch-Ends t) e)

    written-Replaced :
        (t : Files)
        → ApartFrom tmp s t
        → Replaced tmp path bytes s
            (and_then (write_all tmp bytes t) (λ _ u. and_then (touch u) (λ _. rename tmp path)))
    written-Replaced t apart =
        and_then-by (Replaced tmp path bytes s) (write_all tmp bytes t)
          (λ _ u. and_then (touch u) (λ _. rename tmp path))
          (λ _ u e.
            synced-Replaced u
              (λ q off. subst (λ p. ApartFrom tmp t p.1) e (written-Apart t) q off ∙ apart q off)
              (ap (λ c. get c tmp) (good_contents _ _ _ u (write_all-Ends t) e)
                ∙ get-insert_same t.contents tmp bytes))
          (λ x u e q off. subst (λ p. ApartFrom tmp t p.1) e (written-Apart t) q off ∙ apart q off)
          (λ u e. no_panic _ _ _ u (write_all-Ends t) e)

    -- Whatever call fails, and wherever a write stops: if the replacement reports success, the file
    -- has the new bytes, and if it does not, it has what it had; besides the temporary file no other
    -- changes.
    pub replace_file-Replaced : Replaced tmp path bytes s (replace_file tmp path bytes s)
    unfolding replace_file
    replace_file-Replaced =
        and_then-by (Replaced tmp path bytes s) (open_truncated tmp s)
          (λ _ t.
            and_then (write_all tmp bytes t) (λ _ u. and_then (touch u) (λ _. rename tmp path)))
          (λ _ t e. written-Replaced t (subst (λ p. ApartFrom tmp s p.1) e (opened-Apart s)))
          (λ x t e. subst (λ p. ApartFrom tmp s p.1) e (opened-Apart s))
          (λ t e. no_panic _ _ _ t (open_truncated-Ends s) e)
