-- ===== src/Folder/Paths.antt =====
-- transfer_folder.rs: which paths of a peer the receiver writes to.
use p2pfile_transfer.Common.{
  ℕ, ◌≡◌, ◌≢◌, ◌↔◌, refl, ap, ◌∙◌, inl, inr, Bool, true, false, List, [], ◌∷◌, map, All, some, none,
  arith, ◌==◌, subst, bytes_eq, bytes_eq_refl, if◌then◌else◌, Bool-cases,
}
use p2pfile_transfer.Errors.{ok, ◌>>=◌, bind_inv}
use p2pfile_transfer.Folder.{
  Component, normal, cur_dir, push, split, component, add, components_of, is_absolute, components,
  clean, non_empty, sanitize_relative_path,
}

abbrev Slashless : List ℕ → Type 0
Slashless segment = All (λ b. (b == 47) ≡ false) segment

-- A name of a directory entry: not empty, without a slash, and neither `.` nor `..`.
pub record IsName (segment : List ℕ) : Type 0 where
  pub some_byte : segment ≢ []
  pub slashless : All (λ b. (b == 47) ≡ false) segment
  pub not_here : segment ≢ 46 ∷ []
  pub not_up : segment ≢ 46 ∷ 46 ∷ []

push-Slashless :
    (b : ℕ) (segments : List (List ℕ))
    → (b == 47) ≡ false
    → All Slashless segments
    → All Slashless (push b segments)
unfolding push
push-Slashless b [] e h = ((e, tt), tt)
push-Slashless b (segment ∷ segments) e h = ((e, h.0), h.1)

split-Slashless : (bytes : List ℕ) → All Slashless (split bytes)
unfolding split
split-Slashless [] = (tt, tt)
split-Slashless (b ∷ bytes) = elim (Bool-cases (b == 47)) [
  | inl slash ↦ rw slash (tt, split-Slashless bytes)
  | inr other ↦ rw other (push-Slashless b (split bytes) other (split-Slashless bytes))
]

abbrev Named : Component → Type 0
Named (normal part) = IsName part
Named _ = Unit {0}

component-Named :
    (first : Bool) (segment : List ℕ) (rest : List Component)
    → Slashless segment
    → All Named rest
    → All Named (add (component first segment) rest)
unfolding component add
component-Named first [] rest h r = r
component-Named first (b ∷ segment) rest h r =
    elim (Bool-cases (bytes_eq (b ∷ segment) (46 ∷ []))) [
      | inl here ↦ rw here (start first)
      | inr not_here ↦ elim (Bool-cases (bytes_eq (b ∷ segment) (46 ∷ 46 ∷ []))) [
        | inl up ↦ rw (not_here, up) (tt, r)
        | inr not_up ↦
            rw (not_here, not_up)
              (
                record {
                  some_byte = λ e. (let never : ⊥ = cc in never);
                  slashless = h;
                  not_here = apart not_here;
                  not_up = apart not_up;
                },
                r,
              )
      ]
    ]
  where
    start : (first : Bool) → All Named (add (if first then some cur_dir else none) rest)
    start true = (tt, r)
    start false = r

    apart : {xs ys : List ℕ} → bytes_eq xs ys ≡ false → xs ≢ ys
    apart {xs} {ys} differ e = let same : bytes_eq xs ys ≡ true = rw e (bytes_eq_refl ys) in cc

components_of-Named :
    (first : Bool) (segments : List (List ℕ))
    → All Slashless segments
    → All Named (components_of first segments)
unfolding components_of
components_of-Named first [] h = tt
components_of-Named first (segment ∷ segments) h =
    component-Named first segment (components_of false segments) h.0
      (components_of-Named false segments h.1)

components-Named : (path : List ℕ) → All Named (components path)
unfolding components
components-Named path = elim (Bool-cases (is_absolute path)) [
  | inl absolute ↦
      rw (components, absolute) (tt, components_of-Named false (split path) (split-Slashless path))
  | inr relative ↦
      rw (components, relative) (components_of-Named true (split path) (split-Slashless path))
]

clean_inv :
    (cs : List Component) (parts : List (List ℕ)) → clean cs ≡ ok parts → cs ≡ map normal parts
unfolding clean
clean_inv [] parts e = let none_left : [] ≡ parts = cc in rw (← none_left)
clean_inv (normal part ∷ cs) parts e =
    let (rest, h, d) = bind_inv (clean cs) (λ rest. ok (part ∷ rest)) parts e in
    let whole : part ∷ rest ≡ parts = cc d in
    ap (◌∷◌ (normal part)) (clean_inv cs rest h) ∙ ap (map normal) whole
clean_inv (_ ∷ cs) parts e = cc

clean-normal : (parts : List (List ℕ)) → clean (map normal parts) ≡ ok parts
unfolding clean
clean-normal [] = refl
clean-normal (part ∷ parts) = rw (clean-normal parts)

non_empty_inv : (xs ys : List (List ℕ)) → non_empty xs ≡ ok ys → (xs ≡ ys) × (ys ≢ [])
unfolding non_empty
non_empty_inv [] ys e = cc
non_empty_inv (x ∷ xs) ys e =
    let same : x ∷ xs ≡ ys = cc in (same, λ none_left. (let never : ⊥ = cc in never))

non_empty-some : (xs : List (List ℕ)) → xs ≢ [] → non_empty xs ≡ ok xs
unfolding non_empty
non_empty-some [] h = absurd (h refl)
non_empty-some (x ∷ xs) h = refl

taken :
    (path : List ℕ) (parts : List (List ℕ))
    → (clean (components path) >>= non_empty) ≡ ok parts
    → (components path ≡ map normal parts) × (parts ≢ [])
taken path parts e =
    let (xs, h, d) = bind_inv (clean (components path)) non_empty parts e in
    let (same, some_part) = non_empty_inv xs parts d in
    (clean_inv (components path) xs h ∙ ap (map normal) same, some_part)

-- A path is taken exactly when it is relative and consists of one or more normal components; the
-- parts that are joined to the output directory are those.
pub sanitize_relative_path_iff :
    (path : List ℕ) (parts : List (List ℕ))
    → (sanitize_relative_path path ≡ ok parts)
      ↔ ((is_absolute path ≡ false) × (components path ≡ map normal parts) × (parts ≢ []))
unfolding sanitize_relative_path
sanitize_relative_path_iff path parts = (there, back)
  where
    there :
        sanitize_relative_path path ≡ ok parts
        → (is_absolute path ≡ false) × (components path ≡ map normal parts) × (parts ≢ [])
    there e = elim (Bool-cases (is_absolute path)) [
      | inl absolute ↦ let never : ⊥ = ground (arith, absolute, e) in absurd never
      | inr relative ↦
          let (all_normal, some_part) = taken path parts (ground (arith, relative, e)) in
          (relative, all_normal, some_part)
    ]

    back :
        (is_absolute path ≡ false) × (components path ≡ map normal parts) × (parts ≢ [])
        → sanitize_relative_path path ≡ ok parts
    back (relative, all_normal, some_part) =
        rw (relative, all_normal, clean-normal parts) (non_empty-some parts some_part)

All-Named : (parts : List (List ℕ)) → All Named (map normal parts) → All IsName parts
All-Named [] h = tt
All-Named (part ∷ parts) h = (h.0, All-Named parts h.1)

-- Every part of a path that is taken is the name of a directory entry: no part is empty, has a slash
-- in it, or is `.` or `..`. Joined to the output directory the path stays below it.
pub sanitize_relative_path-IsName :
    (path : List ℕ) (parts : List (List ℕ))
    → sanitize_relative_path path ≡ ok parts
    → (All IsName parts) × (parts ≢ [])
sanitize_relative_path-IsName path parts e =
    let (_, all_normal, some_part) = (sanitize_relative_path_iff path parts).0 e in
    (All-Named parts (subst (All Named) all_normal (components-Named path)), some_part)
