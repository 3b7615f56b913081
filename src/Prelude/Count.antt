-- ===== src/Prelude/Count.antt =====
-- How many elements of a list pass a test. Two lists that agree for every test hold the same
-- elements, each as often.
use Prim.Native.Nat.{ℕ, ◌+◌}
use mathlib.Core.Path.{◌≡◌, refl}
use mathlib.Core.Bool.{Bool, true, false}
use mathlib.Core.List.{List, [], ◌∷◌, ◌++◌}
use native.Mathlib.Omega.{arith}
use rustydht_lib.Prelude.Tests.{if◌then◌else◌}
use rustydht_lib.Prelude.Lists.{length, All}

module _ {ℓ} {A : Type ℓ} (p : A → Bool) where
  abbrev pub count_if : List A → ℕ
  count_if [] = 0
  count_if (x ∷ xs) = (if p x then 1 else 0) + count_if xs

  pub count_if-append : (xs ys : List A) → count_if (xs ++ ys) ≡ count_if xs + count_if ys
  count_if-append [] ys = omega arith
  count_if-append (x ∷ xs) ys = omega (arith, count_if-append xs ys)

pub count_if-all {ℓ} : {A : Type ℓ} (xs : List A) → count_if (λ _. true) xs ≡ length xs
count_if-all [] = refl
count_if-all (x ∷ xs) = omega (arith, count_if-all xs)

-- No element fails a test exactly if every element passes it.
pub All-of_count_if {ℓ} :
    {A : Type ℓ} (p : A → Bool) (xs : List A) → count_if p xs ≡ 0 → All (λ x. p x ≡ false) xs
All-of_count_if p [] h = tt
All-of_count_if p (x ∷ xs) h = (ground arith, All-of_count_if p xs (ground arith))

pub count_if_of_All {ℓ} :
    {A : Type ℓ} (p : A → Bool) (xs : List A) → All (λ x. p x ≡ false) xs → count_if p xs ≡ 0
count_if_of_All p [] h = refl
count_if_of_All p (x ∷ xs) h = rw h.0 (omega (arith, count_if_of_All p xs h.1))
