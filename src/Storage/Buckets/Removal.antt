-- ===== src/Storage/Buckets/Removal.antt =====
-- src/storage/buckets.rs: `remove` and `get_mut`, on every branch.
use rustydht_lib.Prelude.{
  ℕ, ◌+◌, ◌≤◌, ◌<◌, ◌≡◌, refl, ap, ◌∙◌, ◌⊎◌, Bool, true, inl, inr, none, some, List, [], ◌∷◌, arith,
  ◌==◌, ==_iff, Bool-cases, if◌then◌else◌, length, set, length-set, All, count_if,
}
use rustydht_lib.Common.Id.{NodeId}
use rustydht_lib.Storage.Vec.{
  swap_remove_total, count_if-swap_remove, length-swap_remove, All-swap_remove_whole, bucket_at,
  bucket_at-set, total, total-set,
}
use rustydht_lib.Storage.Buckets.Moves.{Belongs}
use rustydht_lib.Storage.Buckets.Rounds.{far}
use rustydht_lib.Storage.Buckets.Invariant.{IsValid}
use rustydht_lib.Storage.Buckets.Lookup.{
  total-dest_bucket, dest_bucket-lt, position_total, write_first_total, All-write_first,
}
use rustydht_lib.Storage.Buckets.{
  Bucketable, Buckets, dest_idx, dest_idx_for_id, dest_bucket, has_id, get_mut, remove,
}

dest_idx_same {ℓ} :
    {T : Type ℓ} ⦃b : Bucketable T⦄ (our_id : NodeId) (n : ℕ) (x y : T)
    → b.get_id x ≡ b.get_id y
    → dest_idx our_id n x ≡ dest_idx our_id n y
unfolding dest_idx
dest_idx_same our_id n x y e = ap (dest_idx_for_id our_id n) e

module _ {ℓ} {T : Type ℓ} ⦃b : Bucketable T⦄ (s : Buckets T) where
  -- One bucket is written: the new one belongs there, is no longer, and has no more far items.
  set-IsValid :
      (d : ℕ) (ys : List T)
      → IsValid s
      → d < length s.buckets
      → All (Belongs s.our_id (length s.buckets) d) ys
      → length ys ≤ length (bucket_at s.buckets d)
      → count_if (far s.our_id) ys ≤ count_if (far s.our_id) (bucket_at s.buckets d)
      → IsValid (record s { buckets = set s.buckets d ys })
  set-IsValid d ys v inside belongs shorter fewer = record {
    placed = λ j.
        rw (length-set s.buckets d ys, at_d j)
          (elim (Bool-cases (d == j)) [
            | inl here ↦ rw here (rw (← (==_iff d j).0 here) belongs)
            | inr there ↦ rw there (v.placed j)
          ]);
    small = λ j. rw (at_d j) (elim (Bool-cases (d == j)) [
      | inl here ↦ rw here (omega (arith, v.small d))
      | inr there ↦ rw there (v.small j)
    ]);
    near = omega (arith, total-set (far s.our_id) s.buckets d ys inside, v.near);
    many = omega (arith, length-set s.buckets d ys, v.many);
    some_bucket = omega (arith, length-set s.buckets d ys, v.some_bucket);
  }
    where
      at_d :
          (j : ℕ)
          → bucket_at (set s.buckets d ys) j ≡ (if d == j then ys else bucket_at s.buckets j)
      at_d j = bucket_at-set s.buckets d ys j inside

  -- In valid buckets, `remove` gives nothing exactly if no item has the id. Otherwise it gives an
  -- item with the id, never panics, keeps the invariant, the own id and the capacity, and takes
  -- just that item out.
  pub remove_lem :
      (id : NodeId)
      → IsValid s
      → ((remove s id ≡ none) × (total (has_id id) s.buckets ≡ 0))
        ⊎ ((x : T) × (s' : Buckets T) × (remove s id ≡ some (x, s'))
            × (has_id id x ≡ true)
            × IsValid s'
            × (s'.our_id ≡ s.our_id)
            × (s'.k ≡ s.k)
            × ((p : T → Bool) → total p s.buckets ≡ count_if p (x ∷ []) + total p s'.buckets))
  unfolding remove
  remove_lem id v = elim (position_total id (bucket_at s.buckets (dest_bucket s id))) [
    | inl (missing, zero_count) ↦
        inl (rw missing refl, omega (arith, total-dest_bucket s id v, zero_count))
    | inr (i, y, found, below, got, has) ↦
        let (x, rest, e, g) = swap_remove_total bucket i below in
        let same : x ≡ y = ground (arith, g, got) in
        let inside = dest_bucket-lt s id v in
        inr (
          x,
          record s { buckets = set s.buckets (dest_bucket s id) rest },
          rw (found, e) refl,
          rw same has,
          set-IsValid (dest_bucket s id) rest v inside
              (All-swap_remove_whole _ bucket i x rest e (v.placed (dest_bucket s id))).1
              (omega (arith, length-swap_remove bucket i x rest e))
              (omega (arith, count_if-swap_remove (far s.our_id) bucket i x rest e)),
          refl,
          refl,
          λ p. omega (
            arith,
            total-set p s.buckets (dest_bucket s id) rest inside,
            count_if-swap_remove p bucket i x rest e,
          ),
        )
  ]
    where
      bucket : List T
      bucket = bucket_at s.buckets (dest_bucket s id)

  -- In valid buckets, `get_mut` gives nothing exactly if no item has the id. Otherwise what the
  -- caller writes, which keeps the id of the item, lands on an item with the id, and changes
  -- nothing else; the invariant, the own id and the capacity are kept.
  pub get_mut_lem :
      (id : NodeId) (write : T → T)
      → IsValid s
      → ((x : T) → b.get_id (write x) ≡ b.get_id x)
      → ((get_mut s id write ≡ none) × (total (has_id id) s.buckets ≡ 0))
        ⊎ ((x : T) × (s' : Buckets T) × (get_mut s id write ≡ some s')
            × (has_id id x ≡ true)
            × IsValid s'
            × (s'.our_id ≡ s.our_id)
            × (s'.k ≡ s.k)
            × ((p : T → Bool)
                → total p s'.buckets + count_if p (x ∷ [])
                  ≡ total p s.buckets + count_if p (write x ∷ [])))
  unfolding get_mut
  get_mut_lem id write v keep =
      elim (write_first_total id write (bucket_at s.buckets (dest_bucket s id))) [
        | inl (missing, zero_count) ↦
            inl (rw missing refl, omega (arith, total-dest_bucket s id v, zero_count))
        | inr (x, ys, found, has, len, counts) ↦ inr (
          x,
          record s { buckets = set s.buckets (dest_bucket s id) ys },
          rw found refl,
          has,
          set-IsValid (dest_bucket s id) ys v (dest_bucket-lt s id v)
              (All-write_first _ id write bucket ys keeps_place found (v.placed (dest_bucket s id)))
              (omega (arith, len)) (omega (arith, counts (far s.our_id), same_far x)),
          refl,
          refl,
          λ p. omega (
            arith,
            total-set p s.buckets (dest_bucket s id) ys (dest_bucket-lt s id v),
            counts p,
          ),
        )
      ]
    where
      bucket : List T
      bucket = bucket_at s.buckets (dest_bucket s id)

      keeps_place :
          (x : T)
          → Belongs s.our_id (length s.buckets) (dest_bucket s id) x
          → Belongs s.our_id (length s.buckets) (dest_bucket s id) (write x)
      keeps_place x h = dest_idx_same s.our_id (length s.buckets) (write x) x (keep x) ∙ h

      same_far : (x : T) → count_if (far s.our_id) (write x ∷ []) ≡ count_if (far s.our_id) (x ∷ [])
      same_far x = rw (keep x)
