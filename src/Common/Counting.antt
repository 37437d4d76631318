-- ===== src/Common/Counting.antt =====
-- Sets of numbers as lists without repeats, counted below a bound: the pigeonhole principle.
use p2pfile_transfer.Common.Tests.{◌==◌, if◌then◌else◌, Bool-cases}
use p2pfile_transfer.Common.Lists.{length, All}
use Prim.Native.Nat.{ℕ, zero, suc, ◌+◌, ◌<◌, ◌≤◌}
use mathlib.Core.Path.{◌≡◌, refl}
use mathlib.Core.Bool.{Bool, true, false, ◌||◌, not}
use mathlib.Core.Logic.{inl, inr}
use mathlib.Core.List.{List, [], ◌∷◌, ◌++◌}
use native.Mathlib.Omega.{arith}

unfoldable pub contains : List ℕ → ℕ → Bool
contains [] k = false
contains (x ∷ xs) k = x == k || contains xs k

-- How many numbers below `n` pass the test.
unfoldable pub count_below : (ℕ → Bool) → ℕ → ℕ
count_below p zero = 0
count_below p (suc n) = (if p n then 1 else 0) + count_below p n

abbrev pub Distinct : List ℕ → Type 0
Distinct [] = Unit {0}
Distinct (x ∷ xs) = (contains xs x ≡ false) × Distinct xs

pub count_below-le : (p : ℕ → Bool) (n : ℕ) → count_below p n ≤ n
unfolding count_below
count_below-le p zero = omega arith
count_below-le p (suc n) = ground (arith, count_below-le p n)

pub count_below_mono :
    (p q : ℕ → Bool) (n : ℕ)
    → ((i : ℕ) → i < n → p i ≡ true → q i ≡ true)
    → count_below p n ≤ count_below q n
unfolding count_below
count_below_mono p q zero h = omega arith
count_below_mono p q (suc n) h =
    ground (arith, h n, count_below_mono p q n (λ i l. h i (omega arith)))

-- A subset with as many elements is the whole set.
pub count_below_full :
    (p q : ℕ → Bool) (n : ℕ)
    → ((i : ℕ) → i < n → p i ≡ true → q i ≡ true)
    → count_below q n ≤ count_below p n
    → (i : ℕ) → i < n
    → q i ≡ true
    → p i ≡ true
unfolding count_below
count_below_full p q zero h e i l qi = absurd (omega arith)
count_below_full p q (suc n) h e i l qi =
    let sub : (j : ℕ) → j < n → p j ≡ true → q j ≡ true = λ j lj. h j (omega arith) in
    elim (Bool-cases (i == n)) [
      | inl same ↦ ground (arith, count_below_mono p q n sub, h n)
      | inr other ↦
          count_below_full p q n sub (ground (arith, count_below_mono p q n sub, h n)) i
            (ground arith) qi
    ]

count_below_same :
    (x : ℕ) (xs : List ℕ) (n : ℕ)
    → n ≤ x
    → count_below (contains (x ∷ xs)) n ≡ count_below (contains xs) n
unfolding count_below contains
count_below_same x xs zero h = refl
count_below_same x xs (suc n) h = ground (arith, count_below_same x xs n)

count_below-cons :
    (x : ℕ) (xs : List ℕ) (n : ℕ)
    → x < n
    → contains xs x ≡ false
    → count_below (contains (x ∷ xs)) n ≡ suc (count_below (contains xs) n)
unfolding count_below contains
count_below-cons x xs zero h e = absurd (omega arith)
count_below-cons x xs (suc n) h e = ground (arith, count_below-cons x xs n, count_below_same x xs n)

count_below_none : (n : ℕ) → count_below (contains []) n ≡ 0
unfolding count_below contains
count_below_none zero = refl
count_below_none (suc n) = ground (arith, count_below_none n)

-- A list of distinct numbers below `n` has as many entries as the set that it stands for.
pub count_below-Distinct :
    (xs : List ℕ) (n : ℕ)
    → Distinct xs
    → All (λ x. x < n) xs
    → count_below (contains xs) n ≡ length xs
count_below-Distinct [] n d b = count_below_none n
count_below-Distinct (x ∷ xs) n d b =
    omega (arith, count_below-cons x xs n b.0 d.0, count_below-Distinct xs n d.1 b.1)

-- A set and its complement share the numbers below `n` out.
pub count_below-not : (p : ℕ → Bool) (n : ℕ) → count_below p n + count_below (λ i. not (p i)) n ≡ n
unfolding count_below
count_below-not p zero = refl
count_below-not p (suc n) = ground (arith, count_below-not p n)

pub contains-append :
    (xs : List ℕ) (y k : ℕ) → contains (xs ++ (y ∷ [])) k ≡ (contains xs k || (y == k))
unfolding contains
contains-append [] y k = ground arith
contains-append (x ∷ xs) y k = ground (arith, contains-append xs y k)

pub Distinct-append :
    (xs : List ℕ) (y : ℕ) → Distinct xs → contains xs y ≡ false → Distinct (xs ++ (y ∷ []))
unfolding contains
Distinct-append [] y d e = (refl, tt)
Distinct-append (x ∷ xs) y d e =
    (ground (arith, contains-append xs y x, d.0), Distinct-append xs y d.1 (ground (arith, e)))
