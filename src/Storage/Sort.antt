-- ===== src/Storage/Sort.antt =====
-- `sort_unstable_by` and `sort_unstable_by_key` of Rust's slices. How they order equal elements
-- is not specified, so the sort is a parameter of what uses it, with the documented laws.
pub mod Insertion
use mathlib.Core.List.{Permᴰ}
use rustydht_lib.Prelude.{
  ℕ, ◌≤◌, ◌≡◌, refl, ◌∙◌, compare, Ordering, Bool, List, [], ◌∷◌, arith, All, length, count_if,
}

-- Every element is at most every later one, by a measure.
abbrev pub IsSortedBy {ℓ} : {T : Type ℓ} → (T → ℕ) → List T → Type 0
IsSortedBy m [] = Unit
IsSortedBy m (x ∷ xs) = All (λ y. m x ≤ m y) xs × IsSortedBy m xs

pub record UnstableSort {ℓ} (T : Type ℓ) : Type (ℓ ⊔ 1) where
  pub sort_by : (T → T → Ordering) → List T → List T
  -- The result is a rearrangement of the input.
  pub sort_by-perm : (cmp : T → T → Ordering) (xs : List T) → Permᴰ (sort_by cmp xs) xs
  -- Where the comparison is that of a measure on the elements, the result ascends by it.
  pub sort_by-IsSortedBy :
      (cmp : T → T → Ordering) (m : T → ℕ) (P : T → Type 0) (xs : List T)
      → ((x y : T) → P x → P y → cmp x y ≡ compare (m x) (m y))
      → All P xs
      → IsSortedBy m (sort_by cmp xs)

module _ {ℓ} {T : Type ℓ} where
  pub count_if-perm : (p : T → Bool) {xs ys : List T} → Permᴰ xs ys → count_if p xs ≡ count_if p ys
  count_if-perm p Permᴰ.nil = omega arith
  count_if-perm p (Permᴰ.cons e q) = rw e (omega (arith, count_if-perm p q))
  count_if-perm p (Permᴰ.swap e f) = rw (e, f) (omega arith)
  count_if-perm p (Permᴰ.trans q r) = count_if-perm p q ∙ count_if-perm p r

  pub All-perm {κ} : (P : T → Type κ) {xs ys : List T} → Permᴰ xs ys → All P ys → All P xs
  All-perm P Permᴰ.nil h = tt
  All-perm P (Permᴰ.cons e q) h = (rw e h.0, All-perm P q h.1)
  All-perm P (Permᴰ.swap e f) h = (rw e h.1.0, (rw f h.0, h.1.1))
  All-perm P (Permᴰ.trans q r) h = All-perm P q (All-perm P r h)

  pub length-perm : {xs ys : List T} → Permᴰ xs ys → length xs ≡ length ys
  length-perm Permᴰ.nil = refl
  length-perm (Permᴰ.cons e q) = omega (arith, length-perm q)
  length-perm (Permᴰ.swap e f) = refl
  length-perm (Permᴰ.trans q r) = length-perm q ∙ length-perm r
