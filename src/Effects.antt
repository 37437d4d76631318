-- ===== src/Effects.antt =====
-- Calls that change a state and may fail: the state survives a failure, as `&mut self` does.
use mathlib.Core.Path.{◌≡◌, refl}
use p2pfile_transfer.Errors.{Result, Error, ok, err, panic}

abbrev pub M : Type 0 → Type 0 → Type 0
M S A = S → Result A × S

abbrev pub and_then : {S A B : Type 0} → Result A × S → (A → M S B) → Result B × S
and_then (ok a, s) f = f a s
and_then (err e, s) f = (err e, s)
and_then (panic, s) f = (panic, s)

infixl 5 ◌>>=◌ ◌>>◌
abbrev pub ◌>>=◌ : {S A B : Type 0} → M S A → (A → M S B) → M S B
◌>>=◌ m f s = and_then (m s) f

abbrev pub ◌>>◌ : {S B : Type 0} → M S (Unit {0}) → M S B → M S B
◌>>◌ m k s = and_then (m s) (λ _. k)

abbrev pub done : {S A : Type 0} → A → M S A
done a s = (ok a, s)

abbrev pub fail : {S A : Type 0} → Error → M S A
fail e s = (err e, s)

abbrev pub lift : {S A : Type 0} → Result A → M S A
lift r s = (r, s)

abbrev pub modify : {S : Type 0} → (S → S) → M S (Unit {0})
modify f s = (ok tt, f s)

abbrev pub gets : {S A : Type 0} → (S → A) → M S A
gets f s = (ok (f s), s)

module _ {S A B : Type 0} where
  -- A sequence that succeeds has succeeded in both parts.
  pub and_then_inv :
      (m : Result A × S) (f : A → M S B) (b : B) (s' : S)
      → and_then m f ≡ (ok b, s')
      → (a : A) × (s : S) × (m ≡ (ok a, s)) × (f a s ≡ (ok b, s'))
  and_then_inv (ok a, s) f b s' e = (a, s, refl, e)
  and_then_inv (err x, s) f b s' e = cc
  and_then_inv (panic, s) f b s' e = cc

  pub lift_inv :
      (r : Result A) (s : S) (f : A → M S B) (b : B) (s' : S)
      → and_then (r, s) f ≡ (ok b, s')
      → (a : A) × (r ≡ ok a) × (f a s ≡ (ok b, s'))
  lift_inv (ok a) s f b s' e = (a, refl, e)
  lift_inv (err x) s f b s' e = cc
  lift_inv panic s f b s' e = cc
