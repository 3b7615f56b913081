-- ===== src/Storage/Buckets/Lookup.antt =====
-- src/storage/buckets.rs: the one bucket that `contains`, `get_mut` and `remove` look into.
use rustydht_lib.Prelude.{
  ℕ, zero, suc, ◌+◌, ◌<◌, ◌≡◌, refl, ◌≢◌, ap, ◌⊎◌, Bool, true, inl, inr, none, some, List, [], ◌∷◌,
  arith, ltb, Bool-cases, Option-cases, length, get_elem?, All, count_if,
}
use rustydht_lib.Common.Id.{NodeId}
use rustydht_lib.Common.Id.Distance.{id_eq_iff}
use rustydht_lib.Storage.Vec.{bucket_at, total}
use rustydht_lib.Storage.Buckets.Moves.{Belongs}
use rustydht_lib.Storage.Buckets.Invariant.{IsValid}
use rustydht_lib.Storage.Buckets.{
  Bucketable, Buckets, dest_idx, dest_bucket, dest_idx_for_id, has_id, any_has_id, contains,
  position, write_first,
}

module _ {ℓ} {T : Type ℓ} where
  total_zero :
      (p : T → Bool) (bs : List (List T))
      → ((j : ℕ) → count_if p (bucket_at bs j) ≡ 0)
      → total p bs ≡ 0
  total_zero p [] h = refl
  total_zero p (x ∷ bs) h = omega (arith, h 0, total_zero p bs (λ j. h (suc j)))

  -- Where only one bucket has such items, they are all.
  total_single :
      (p : T → Bool) (bs : List (List T)) (d : ℕ)
      → ((j : ℕ) → j ≢ d → count_if p (bucket_at bs j) ≡ 0)
      → total p bs ≡ count_if p (bucket_at bs d)
  total_single p [] d h = refl
  total_single p (x ∷ bs) zero h = omega (arith, total_zero p bs (λ j. h (suc j) (omega arith)))
  total_single p (x ∷ bs) (suc d) h =
      omega (arith, h 0 (omega arith), total_single p bs d (λ j ne. h (suc j) (omega arith)))

module _ {ℓ} {T : Type ℓ} ⦃b : Bucketable T⦄ where
  has_id-dest :
      (our_id : NodeId) (n : ℕ) (id : NodeId) (x : T)
      → has_id id x ≡ true
      → dest_idx our_id n x ≡ dest_idx_for_id our_id n id
  unfolding dest_idx has_id
  has_id-dest our_id n id x h = ap (dest_idx_for_id our_id n) ((id_eq_iff (b.get_id x) id).0 h)

  -- No item of another bucket has the id.
  has_id_elsewhere :
      (our_id : NodeId) (n j d : ℕ) (id : NodeId) (xs : List T)
      → All (Belongs our_id n j) xs
      → dest_idx_for_id our_id n id ≡ d
      → j ≢ d
      → count_if (has_id id) xs ≡ 0
  has_id_elsewhere our_id n j d id [] h e ne = refl
  has_id_elsewhere our_id n j d id (x ∷ xs) h e ne =
      ground (arith, has_id_elsewhere our_id n j d id xs h.1 e ne, has_id-dest our_id n id x, h.0)

  any_has_id-count_if :
      (id : NodeId) (xs : List T) → any_has_id id xs ≡ ltb 0 (count_if (has_id id) xs)
  unfolding any_has_id
  any_has_id-count_if id [] = ground arith
  any_has_id-count_if id (x ∷ xs) = ground (arith, any_has_id-count_if id xs)

  -- The items that the id finds in the end: what `get_mut` writes and `remove` takes is in front.
  pub position_total :
      (id : NodeId) (xs : List T)
      → ((position id xs ≡ none) × (count_if (has_id id) xs ≡ 0))
        ⊎ ((i : ℕ) × (x : T) × (position id xs ≡ some i)
            × (i < length xs)
            × (get_elem? xs i ≡ some x)
            × (has_id id x ≡ true))
  unfolding position
  position_total id [] = inl (refl, refl)
  position_total id (x ∷ xs) = elim (Bool-cases (has_id id x)) [
    | inl here ↦ inr (0, x, rw here refl, omega arith, refl, here)
    | inr other ↦ elim (position_total id xs) [
      | inl (missing, zero_count) ↦
          inl (rw (other, missing) refl, rw other (omega (arith, zero_count)))
      | inr (i, y, found, below, got, has) ↦
          inr (suc i, y, rw (other, found) refl, omega arith, got, has)
    ]
  ]

  pub write_first_total :
      (id : NodeId) (write : T → T) (xs : List T)
      → ((write_first id write xs ≡ none) × (count_if (has_id id) xs ≡ 0))
        ⊎ ((x : T) × (ys : List T) × (write_first id write xs ≡ some ys)
            × (has_id id x ≡ true)
            × (length ys ≡ length xs)
            × ((p : T → Bool)
                → count_if p ys + count_if p (x ∷ []) ≡ count_if p xs + count_if p (write x ∷ [])))
  unfolding write_first
  write_first_total id write [] = inl (refl, refl)
  write_first_total id write (x ∷ xs) = elim (Bool-cases (has_id id x)) [
    | inl here ↦ inr (x, write x ∷ xs, rw here refl, here, refl, λ p. omega arith)
    | inr other ↦ elim (write_first_total id write xs) [
      | inl (missing, zero_count) ↦
          inl (rw (other, missing) refl, rw other (omega (arith, zero_count)))
      | inr (y, ys, found, has, len, counts) ↦
          inr (y, x ∷ ys, rw (other, found) refl, has, omega arith, λ p. omega (arith, counts p))
    ]
  ]

  -- What the write keeps holds of the bucket afterwards.
  pub All-write_first {κ} :
      (P : T → Type κ) (id : NodeId) (write : T → T) (xs ys : List T)
      → ((x : T) → P x → P (write x))
      → write_first id write xs ≡ some ys
      → All P xs
      → All P ys
  unfolding write_first
  All-write_first P id write [] ys keep e h = cc
  All-write_first P id write (x ∷ xs) ys keep e h = elim (Bool-cases (has_id id x)) [
    | inl here ↦
        let same : write x ∷ xs ≡ ys = ground (arith, e, here) in rw (← same) (keep x h.0, h.1)
    | inr other ↦ elim (Option-cases (write_first id write xs)) [
      | inl missing ↦ absurd (ground (arith, e, other, missing))
      | inr (zs, found) ↦
          let same : x ∷ zs ≡ ys = ground (arith, e, other, found) in
          rw (← same) (h.0, All-write_first P id write xs zs keep found h.1)
    ]
  ]

module _ {ℓ} {T : Type ℓ} ⦃b : Bucketable T⦄ (s : Buckets T) (id : NodeId) where
  -- All items with the id are in the one bucket that is looked into.
  pub total-dest_bucket :
      IsValid s
      → total (has_id id) s.buckets ≡ count_if (has_id id) (bucket_at s.buckets (dest_bucket s id))
  unfolding dest_bucket
  total-dest_bucket v = total_single (has_id id) s.buckets (dest_bucket s id) λ j ne.
      has_id_elsewhere s.our_id (length s.buckets) j (dest_bucket s id) id (bucket_at s.buckets j)
        (v.placed j) refl ne

  pub dest_bucket-lt : IsValid s → dest_bucket s id < length s.buckets
  unfolding dest_bucket dest_idx_for_id
  dest_bucket-lt v = omega (arith, v.some_bucket)

  -- In valid buckets, `contains` says whether any bucket holds an item with the id.
  pub contains_iff : IsValid s → contains s id ≡ ltb 0 (total (has_id id) s.buckets)
  unfolding contains
  contains_iff v =
      rw (total-dest_bucket v) (any_has_id-count_if id (bucket_at s.buckets (dest_bucket s id)))
