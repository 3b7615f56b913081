-- ===== src/Storage/Sort/Insertion.antt =====
-- Insertion sort: a sort that keeps the promises of the slices' sorts, to run the model with.
use mathlib.Core.List.{Permᴰ}
use rustydht_lib.Prelude.{ℕ, ◌≤◌, ◌≡◌, refl, compare, Ordering, List, [], ◌∷◌, arith, All, All-map}
use rustydht_lib.Storage.Sort.{UnstableSort, IsSortedBy, All-perm}

module _ {ℓ} {T : Type ℓ} where
  -- The element in front of, or behind, the head of a list.
  unfoldable pub place : Ordering → T → T → List T → List T → List T
  place Ordering.gt x y ys rest = y ∷ rest
  place Ordering.lt x y ys rest = x ∷ y ∷ ys
  place Ordering.eq x y ys rest = x ∷ y ∷ ys

  unfoldable pub insert : (T → T → Ordering) → T → List T → List T
  unfolding place
  insert cmp x [] = x ∷ []
  insert cmp x (y ∷ ys) = place (cmp x y) x y ys (insert cmp x ys)

  unfoldable pub sort : (T → T → Ordering) → List T → List T
  unfolding insert
  sort cmp [] = []
  sort cmp (x ∷ xs) = insert cmp x (sort cmp xs)

  perm_refl : (xs : List T) → Permᴰ xs xs
  perm_refl [] = Permᴰ.nil
  perm_refl (x ∷ xs) = Permᴰ.cons refl (perm_refl xs)

  place-perm :
      (o : Ordering) (x y : T) (ys rest : List T)
      → Permᴰ rest (x ∷ ys)
      → Permᴰ (place o x y ys rest) (x ∷ y ∷ ys)
  unfolding place
  place-perm Ordering.gt x y ys rest h = Permᴰ.trans (Permᴰ.cons refl h) (Permᴰ.swap refl refl)
  place-perm Ordering.lt x y ys rest h = perm_refl (x ∷ y ∷ ys)
  place-perm Ordering.eq x y ys rest h = perm_refl (x ∷ y ∷ ys)

  insert-perm : (cmp : T → T → Ordering) (x : T) (ys : List T) → Permᴰ (insert cmp x ys) (x ∷ ys)
  unfolding insert
  insert-perm cmp x [] = perm_refl (x ∷ [])
  insert-perm cmp x (y ∷ ys) = place-perm (cmp x y) x y ys (insert cmp x ys) (insert-perm cmp x ys)

  pub sort-perm : (cmp : T → T → Ordering) (xs : List T) → Permᴰ (sort cmp xs) xs
  unfolding sort
  sort-perm cmp [] = Permᴰ.nil
  sort-perm cmp (x ∷ xs) =
      Permᴰ.trans (insert-perm cmp x (sort cmp xs)) (Permᴰ.cons refl (sort-perm cmp xs))

  module _ (m : T → ℕ) where
    place-IsSortedBy :
        (o : Ordering) (x y : T) (ys rest : List T)
        → o ≡ compare (m x) (m y)
        → IsSortedBy m (y ∷ ys)
        → Permᴰ rest (x ∷ ys)
        → IsSortedBy m rest
        → IsSortedBy m (place o x y ys rest)
    unfolding place
    place-IsSortedBy Ordering.gt x y ys rest e h q hr =
        (All-perm (λ z. m y ≤ m z) q (ground arith, h.0), hr)
    place-IsSortedBy Ordering.lt x y ys rest e h q hr =
        let below : m x ≤ m y = ground arith in
        ((below, All-map _ (λ z. m x ≤ m z) (λ z k. omega arith) ys h.0), h)
    place-IsSortedBy Ordering.eq x y ys rest e h q hr =
        let below : m x ≤ m y = ground arith in
        ((below, All-map _ (λ z. m x ≤ m z) (λ z k. omega arith) ys h.0), h)

    module _ (cmp : T → T → Ordering) (P : T → Type 0)
        (agrees : (x y : T) → P x → P y → cmp x y ≡ compare (m x) (m y)) where
      insert-IsSortedBy :
          (x : T) (ys : List T) → P x → All P ys → IsSortedBy m ys → IsSortedBy m (insert cmp x ys)
      unfolding insert
      insert-IsSortedBy x [] hx hys h = (tt, tt)
      insert-IsSortedBy x (y ∷ ys) hx hys h =
          place-IsSortedBy (cmp x y) x y ys (insert cmp x ys) (agrees x y hx hys.0) h
            (insert-perm cmp x ys) (insert-IsSortedBy x ys hx hys.1 h.1)

      pub sort-IsSortedBy : (xs : List T) → All P xs → IsSortedBy m (sort cmp xs)
      unfolding sort
      sort-IsSortedBy [] h = tt
      sort-IsSortedBy (x ∷ xs) h =
          insert-IsSortedBy x (sort cmp xs) h.0 (All-perm P (sort-perm cmp xs) h.1)
            (sort-IsSortedBy xs h.1)

  unfoldable pub insertion_sort : UnstableSort T
  unfolding sort
  insertion_sort = record {
    sort_by = sort;
    sort_by-perm = sort-perm;
    sort_by-IsSortedBy = λ cmp m P xs agrees h. sort-IsSortedBy m cmp P agrees xs h;
  }
