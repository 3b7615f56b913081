-- ===== src/Storage/Buckets/Invariant.antt =====
-- src/storage/buckets.rs: the invariant of `Buckets`, at `new`, `clear`, `set_id`, `retain` and
-- `add`.
use rustydht_lib.Prelude.{
  ℕ, zero, suc, ◌+◌, ◌≤◌, ◌<◌, ◌≡◌, refl, Bool, false, ◌&&◌, inl, inr, Option, some, List, [], ◌∷◌,
  ◌++◌, arith, ◌==◌, ==_iff, Bool-cases, if◌then◌else◌, length, length-set, All, All-append,
  count_if, count_if-append,
}
use native.Mathlib.Decide.{ℕ_discrete}
use rustydht_lib.Common.Id.{NodeId, IsId, id_eq}
use rustydht_lib.Common.Id.Distance.{id_eq_iff, matching_prefix_bits-le, matching_prefix_bits_full}
use rustydht_lib.Storage.Sort.{UnstableSort}
use rustydht_lib.Storage.Vec.{bucket_at, bucket_at-set, bucket_at_behind, total, total-set}
use rustydht_lib.Storage.Buckets.Moves.{Belongs, dest_idx-lt}
use rustydht_lib.Storage.Buckets.Rounds.{Loop, Conserved, far}
use rustydht_lib.Storage.Buckets.Overflow.{overflow_loop-Loop}
use rustydht_lib.Storage.Buckets.{
  Bucketable, Buckets, new, clear, set_id, retain, retain_all, retain_list, push_at, dest_idx,
  overflow_fuel, handle_bucket_overflow, add,
}

module _ {ℓ} {T : Type ℓ} ⦃b : Bucketable T⦄ where
  -- Every item is in the bucket of its prefix, no bucket is above its capacity, no item has our
  -- own id, and there is a bucket, and at most 161 of them.
  pub record IsValid (s : Buckets T) : Type ℓ where
    pub placed : (j : ℕ) → All (Belongs s.our_id (length s.buckets) j) (bucket_at s.buckets j)
    pub small : (j : ℕ) → length (bucket_at s.buckets j) ≤ s.k
    pub near : total (far s.our_id) s.buckets ≡ 0
    pub many : length s.buckets ≤ 161
    pub some_bucket : 1 ≤ length s.buckets

  empty-IsValid :
      (our_id : NodeId) (k : ℕ) → IsValid (record { our_id = our_id; buckets = [] ∷ []; k = k })
  empty-IsValid our_id k = record {
    placed = λ j. elim j as (λ i. All (Belongs our_id 1 i) (bucket_at ([] ∷ []) i)) [
      | zero ↦ tt
      | suc i ↦ tt
    ];
    small = λ j. elim j as (λ i. length (bucket_at {T = T} ([] ∷ []) i) ≤ k) [
      | zero ↦ omega arith
      | suc i ↦ omega arith
    ];
    near = refl;
    many = omega arith;
    some_bucket = omega arith;
  }

  pub new-IsValid : (our_id : NodeId) (k : ℕ) → IsValid (new our_id k)
  unfolding new
  new-IsValid our_id k = empty-IsValid our_id k

  pub clear-IsValid : (s : Buckets T) → IsValid (clear s)
  unfolding clear
  clear-IsValid s = empty-IsValid s.our_id s.k

  pub set_id-IsValid : (s : Buckets T) (id : NodeId) → IsValid (set_id s id)
  unfolding set_id
  set_id-IsValid s id = empty-IsValid id s.k

  bucket_at-retain_all :
      (f : T → Bool) (bs : List (List T)) (j : ℕ)
      → bucket_at (retain_all f bs) j ≡ retain_list f (bucket_at bs j)
  unfolding retain_all retain_list
  bucket_at-retain_all f [] j = refl
  bucket_at-retain_all f (x ∷ bs) zero = refl
  bucket_at-retain_all f (x ∷ bs) (suc j) = bucket_at-retain_all f bs j

  length-retain_all : (f : T → Bool) (bs : List (List T)) → length (retain_all f bs) ≡ length bs
  unfolding retain_all
  length-retain_all f [] = refl
  length-retain_all f (x ∷ bs) = omega (arith, length-retain_all f bs)

  length-retain_list-le : (f : T → Bool) (xs : List T) → length (retain_list f xs) ≤ length xs
  unfolding retain_list
  length-retain_list-le f [] = omega arith
  length-retain_list-le f (x ∷ xs) = ground (arith, length-retain_list-le f xs)

  pub All-retain_list {κ} :
      (P : T → Type κ) (f : T → Bool) (xs : List T) → All P xs → All P (retain_list f xs)
  unfolding retain_list
  All-retain_list P f [] h = tt
  All-retain_list P f (x ∷ xs) h = elim (Bool-cases (f x)) [
    | inl kept ↦ rw kept (h.0, All-retain_list P f xs h.1)
    | inr dropped ↦ rw dropped (All-retain_list P f xs h.1)
  ]

  -- Of the items that pass a test, `retain` keeps those that pass its own.
  pub count_if-retain_list :
      (p f : T → Bool) (xs : List T) → count_if p (retain_list f xs) ≡ count_if (λ x. f x && p x) xs
  unfolding retain_list
  count_if-retain_list p f [] = refl
  count_if-retain_list p f (x ∷ xs) = ground (arith, count_if-retain_list p f xs)

  pub total-retain_all :
      (p f : T → Bool) (bs : List (List T)) → total p (retain_all f bs) ≡ total (λ x. f x && p x) bs
  unfolding retain_all
  total-retain_all p f [] = refl
  total-retain_all p f (x ∷ bs) = omega (arith, count_if-retain_list p f x, total-retain_all p f bs)

  count_if-retain_list-le :
      (p f : T → Bool) (xs : List T) → count_if p (retain_list f xs) ≤ count_if p xs
  unfolding retain_list
  count_if-retain_list-le p f [] = omega arith
  count_if-retain_list-le p f (x ∷ xs) = ground (arith, count_if-retain_list-le p f xs)

  pub total-retain_all-le :
      (p f : T → Bool) (bs : List (List T)) → total p (retain_all f bs) ≤ total p bs
  unfolding retain_all
  total-retain_all-le p f [] = omega arith
  total-retain_all-le p f (x ∷ bs) =
      omega (arith, count_if-retain_list-le p f x, total-retain_all-le p f bs)

  pub retain-IsValid : (f : T → Bool) (s : Buckets T) → IsValid s → IsValid (retain f s)
  unfolding retain
  retain-IsValid f s v = record {
    placed = λ j.
        rw (length-retain_all f s.buckets, bucket_at-retain_all f s.buckets j)
          (All-retain_list _ f (bucket_at s.buckets j) (v.placed j));
    small = λ j.
        rw (bucket_at-retain_all f s.buckets j)
          (omega (arith, length-retain_list-le f (bucket_at s.buckets j), v.small j));
    near = omega (arith, total-retain_all-le (far s.our_id) f s.buckets, v.near);
    many = omega (arith, length-retain_all f s.buckets, v.many);
    some_bucket = omega (arith, length-retain_all f s.buckets, v.some_bucket);
  }

  length-push_at : (i : ℕ) (x : T) (bs : List (List T)) → length (push_at i x bs) ≡ length bs
  unfolding push_at
  length-push_at i x bs = length-set bs i (bucket_at bs i ++ x ∷ [])

  bucket_at-push_at :
      (i : ℕ) (x : T) (bs : List (List T)) (j : ℕ)
      → i < length bs
      → bucket_at (push_at i x bs) j ≡ (if i == j then bucket_at bs i ++ x ∷ [] else bucket_at bs j)
  unfolding push_at
  bucket_at-push_at i x bs j h = bucket_at-set bs i (bucket_at bs i ++ x ∷ []) j h

  pub total-push_at :
      (p : T → Bool) (i : ℕ) (x : T) (bs : List (List T))
      → i < length bs
      → total p (push_at i x bs) ≡ total p bs + count_if p (x ∷ [])
  unfolding push_at
  total-push_at p i x bs h = omega (
    arith,
    total-set p bs i (bucket_at bs i ++ x ∷ []) h,
    count_if-append p (bucket_at bs i) (x ∷ []),
  )

  -- An id other than ours shares at most 159 bits.
  far_other :
      (our_id : NodeId) (x : T)
      → IsId our_id
      → IsId (b.get_id x)
      → id_eq (b.get_id x) our_id ≡ false
      → far our_id x ≡ false
  far_other our_id x hs hi other = ground (
    arith,
    matching_prefix_bits-le our_id (b.get_id x) hs hi,
    matching_prefix_bits_full our_id (b.get_id x) hs hi,
    id_eq_iff (b.get_id x) our_id,
  )

module _ {ℓ} {T : Type ℓ} ⦃b : Bucketable T⦄ (sort : UnstableSort T) where
  push_at-Loop :
      (s : Buckets T) (item : T)
      → IsValid s
      → far s.our_id item ≡ false
      → Loop s.our_id s.k
          (dest_idx s.our_id (length s.buckets) item)
          (push_at (dest_idx s.our_id (length s.buckets) item) item s.buckets)
  push_at-Loop s item v near = record {
    placed = λ j.
        rw (length-push_at idx item bs, at_idx j)
          (elim (Bool-cases (idx == j)) [
            | inl here ↦
                rw (here, (==_iff idx j).0 here)
                  (All-append _ (bucket_at bs j) (item ∷ []) (v.placed j)
                    ((==_iff idx j).0 here, tt))
            | inr there ↦ rw there (v.placed j)
          ]);
    small = λ j other. rw (at_idx j) (elim (Bool-cases (idx == j)) [
      | inl here ↦ absurd (ground arith)
      | inr there ↦ rw there (v.small j)
    ]);
    near = ground (arith, total-push_at (far s.our_id) idx item bs inside, v.near, near);
    many = omega (arith, length-push_at idx item bs, v.many);
    some_bucket = omega (arith, length-push_at idx item bs, v.some_bucket);
  }
    where
      bs : List (List T)
      bs = s.buckets

      idx : ℕ
      idx = dest_idx s.our_id (length bs) item

      inside : idx < length bs
      inside = dest_idx-lt s.our_id (length bs) item v.some_bucket

      at_idx :
          (j : ℕ)
          → bucket_at (push_at idx item bs) j
            ≡ (if idx == j then bucket_at bs idx ++ item ∷ [] else bucket_at bs j)
      at_idx j = bucket_at-push_at idx item bs j inside

  Loop-IsValid :
      (our_id : NodeId) (k idx : ℕ) (bs : List (List T))
      → Loop our_id k idx bs
      → length bs ≤ idx
      → IsValid (record { our_id = our_id; buckets = bs; k = k })
  Loop-IsValid our_id k idx bs l ended = record {
    placed = l.placed;
    small = λ j. elim (ℕ_discrete j idx) [
      | yes here ↦ rw (bucket_at_behind bs j (omega arith)) (omega arith)
      | no there ↦ l.small j there
    ];
    near = l.near;
    many = l.many;
    some_bucket = l.some_bucket;
  }

  -- `add` of an item with another id than ours.
  pub add_other :
      (s : Buckets T) (item : T) (chumps : Option (List T))
      → IsId s.our_id
      → IsId (b.get_id item)
      → id_eq (b.get_id item) s.our_id ≡ false
      → IsValid s
      → (bs : List (List T)) × (chumps' : Option (List T)) × (add sort s item chumps
          ≡ some (record s { buckets = bs }, chumps'))
        × IsValid (record s { buckets = bs })
        × Conserved
            (push_at (dest_idx s.our_id (length s.buckets) item) item s.buckets)
            chumps
            bs
            chumps'
  unfolding add handle_bucket_overflow
  add_other s item chumps hs hi other v =
      let (bs, chumps', idx', run, l, ended, m) =
        overflow_loop-Loop sort s.our_id overflow_fuel s.k
          (dest_idx s.our_id (length s.buckets) item) _ chumps
          (push_at-Loop s item v (far_other s.our_id item hs hi other)) (omega arith)
          (omega arith) in
      (bs, chumps', rw (other, run) refl, Loop-IsValid s.our_id s.k idx' bs l ended, m)
