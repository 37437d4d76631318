-- ===== src/Common/Maps.antt =====
-- Maps as lists of entries: the first entry of a key counts.
use p2pfile_transfer.Common.Tests.{
  ◌==◌, if◌then◌else◌, Bool-cases, bytes_eq, bytes_eq→eq, bytes_eq_refl,
}
use Prim.Native.Nat.{ℕ}
use mathlib.Core.Path.{◌≡◌, refl, sym, ap, ◌∙◌}
use mathlib.Core.Logic.{◌≢◌, ◌⊎◌, inl, inr}
use mathlib.Core.Bool.{Bool, true, false}
use mathlib.Core.Option.{Option, none, some}
use mathlib.Core.List.{List, [], ◌∷◌}
use native.Mathlib.Omega.{arith}

-- Keys with a test for equality.
pub record Key (K : Type 0) : Type 0 where
  pub same : K → K → Bool
  pub same→eq : (j k : K) → same j k ≡ true → j ≡ k
  pub same_refl : (k : K) → same k k ≡ true

pub numbers_equal : (j k : ℕ) → (j == k) ≡ true → j ≡ k
numbers_equal j k e = ground (arith, e)

pub number_refl : (k : ℕ) → (k == k) ≡ true
number_refl k = ground arith

instance abbrev pub number_key : Key ℕ
number_key = record { same = ◌==◌; same→eq = numbers_equal; same_refl = number_refl }

instance abbrev pub bytes_key : Key (List ℕ)
bytes_key = record { same = bytes_eq; same→eq = bytes_eq→eq; same_refl = bytes_eq_refl }

module _ {K : Type 0} ⦃key : Key K⦄ where
  different : (j k : K) → j ≢ k → key.same j k ≡ false
  different j k d = elim (Bool-cases (key.same j k)) [
    | inl e ↦ absurd (d (key.same→eq j k e))
    | inr e ↦ e
  ]

  pub key_decides : (j k : K) → (j ≡ k) ⊎ (j ≢ k)
  key_decides j k = elim (Bool-cases (key.same j k)) [
    | inl e ↦ inl (key.same→eq j k e)
    | inr e ↦ inr (λ eq. let s : key.same j k ≡ true = rw eq (key.same_refl k) in cc)
  ]

module _ {V : Type 0} where
  unfoldable pub passing : (V → Bool) → Option V → Option V
  passing p none = none
  passing p (some v) = if p v then some v else none

module _ {K V : Type 0} ⦃key : Key K⦄ where
  unfoldable pub get : List (K × V) → K → Option V
  get [] k = none
  get ((j, v) ∷ m) k = if key.same j k then some v else get m k

  unfoldable pub remove : List (K × V) → K → List (K × V)
  remove [] k = []
  remove ((j, v) ∷ m) k = if key.same j k then remove m k else (j, v) ∷ remove m k

  unfoldable pub insert : List (K × V) → K → V → List (K × V)
  insert m k v = (k, v) ∷ remove m k

  -- An entry that is dropped uncovers no older one.
  unfoldable pub retain : (V → Bool) → List (K × V) → List (K × V)
  retain p [] = []
  retain p ((j, v) ∷ m) = if p v then (j, v) ∷ retain p m else remove (retain p m) j

  unfoldable pub keys : List (K × V) → List K
  keys [] = []
  keys ((j, v) ∷ m) = j ∷ keys m

  pub get-remove_same : (m : List (K × V)) (k : K) → get (remove m k) k ≡ none
  unfolding get remove
  get-remove_same [] k = refl
  get-remove_same ((j, v) ∷ m) k = ground (arith, get-remove_same m k)

  pub get-remove_other : (m : List (K × V)) (j k : K) → j ≢ k → get (remove m j) k ≡ get m k
  unfolding get remove
  get-remove_other [] j k d = refl
  get-remove_other ((i, v) ∷ m) j k d = elim (Bool-cases (key.same i j)) [
    | inl e ↦
        let same : i ≡ j = key.same→eq i j e in
        let away : key.same i k ≡ false = rw same (different j k d) in
        rw (e, away) (get-remove_other m j k d)
    | inr e ↦ rw (e, get) (ap (λ o. if key.same i k then some v else o) (get-remove_other m j k d))
  ]

  pub get-insert_same : (m : List (K × V)) (k : K) (v : V) → get (insert m k v) k ≡ some v
  unfolding get insert
  get-insert_same m k v = rw (key.same_refl k)

  pub get-insert_other :
      (m : List (K × V)) (j k : K) (v : V) → j ≢ k → get (insert m j v) k ≡ get m k
  unfolding get insert
  get-insert_other m j k v d = rw (different j k d) (get-remove_other m j k d)

  -- What is found in a retained map is what was found before, and passes the test.
  pub get-retain :
      (p : V → Bool) (m : List (K × V)) (k : K) (v : V)
      → get (retain p m) k ≡ some v
      → (get m k ≡ some v) × (p v ≡ true)
  unfolding get retain
  get-retain p [] k v e = cc
  get-retain p ((j, u) ∷ m) k v e = elim (Bool-cases (key.same j k)) [
    | inl same ↦ elim (Bool-cases (p u)) [
      | inl keep ↦
          let found : u ≡ v = ground (arith, e, same, keep) in (rw (same, found), rw (← found) keep)
      | inr gone ↦
          let eq : j ≡ k = key.same→eq j k same in
          let nothing : get (remove (retain p m) j) k ≡ none =
            rw eq (get-remove_same (retain p m) k) in
          let never : ⊥ = ground (arith, e, gone, nothing) in absurd never
    ]
    | inr other ↦
        let d : j ≢ k = λ eq. let s : key.same j k ≡ true = rw eq (key.same_refl k) in cc in
        elim (Bool-cases (p u)) [
          | inl keep ↦ rw other (get-retain p m k v (ground (arith, e, other, keep)))
          | inr gone ↦ rw other (
              get-retain p m k v
                (sym (get-remove_other (retain p m) j k d) ∙ (ground (arith, e, gone))))
        ]
  ]

  pub get-retain-passing :
      (p : V → Bool) (m : List (K × V)) (k : K) → get (retain p m) k ≡ passing p (get m k)
  unfolding get retain passing
  get-retain-passing p [] k = refl
  get-retain-passing p ((j, v) ∷ m) k = elim (Bool-cases (key.same j k)) [
    | inl same ↦ elim (Bool-cases (p v)) [
      | inl keep ↦ rw (keep, same, keep)
      | inr gone ↦
          let eq : j ≡ k = key.same→eq j k same in
          let nothing : get (remove (retain p m) j) k ≡ none =
            rw eq (get-remove_same (retain p m) k) in
          rw (gone, same, gone) nothing
    ]
    | inr other ↦
        let d : j ≢ k = λ eq. let s : key.same j k ≡ true = rw eq (key.same_refl k) in cc in
        elim (Bool-cases (p v)) [
          | inl keep ↦ rw (keep, other) (get-retain-passing p m k)
          | inr gone ↦
              rw (gone, other) (get-remove_other (retain p m) j k d ∙ get-retain-passing p m k)
        ]
  ]

  pub get-remove-some :
      (m : List (K × V)) (j k : K) (v : V)
      → get (remove m j) k ≡ some v
      → (j ≢ k) × (get m k ≡ some v)
  get-remove-some m j k v e =
      let d : j ≢ k = λ eq.
        (let nothing : get (remove m j) k ≡ none =
            ap (get (remove m j)) (sym eq) ∙ get-remove_same m j in
          cc) in
      (d, sym (get-remove_other m j k d) ∙ e)

  pub get-insert-some :
      (m : List (K × V)) (j k : K) (u v : V)
      → get (insert m j u) k ≡ some v
      → ((j ≡ k) × (u ≡ v)) ⊎ ((j ≢ k) × (get m k ≡ some v))
  get-insert-some m j k u v e = elim (key_decides j k) [
    | inl same ↦
        let found : get (insert m j u) k ≡ some u =
          ap (get (insert m j u)) (sym same) ∙ get-insert_same m j u in
        inl (same, let eq : u ≡ v = cc in eq)
    | inr d ↦ inr (d, sym (get-insert_other m j k u d) ∙ e)
  ]
