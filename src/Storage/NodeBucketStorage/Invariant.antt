-- ===== src/Storage/NodeBucketStorage/Invariant.antt =====
-- src/storage/node_bucket_storage.rs: the invariant of `NodeBucketStorage`, and how the two
-- buckets take an item in.
use rustydht_lib.Prelude.{
  ℕ, ◌+◌, ◌≤◌, ◌≡◌, refl, ◌∙◌, Bool, true, false, ◌&&◌, not, inl, inr, none, some, List, [], ◌∷◌,
  arith, ltb, ◌==◌, Bool-cases, length, All, count_if,
}
use rustydht_lib.Common.Id.{NodeId, IsId, IsByte, id_size, id_eq}
use rustydht_lib.Storage.Sort.{UnstableSort}
use rustydht_lib.Storage.Vec.{total}
use rustydht_lib.Storage.NodeWrapper.{NodeWrapper, node_wrapper_bucketable}
use rustydht_lib.Storage.Buckets.{Buckets, has_id, add}
use rustydht_lib.Storage.Buckets.Invariant.{IsValid}
use rustydht_lib.Storage.Buckets.Adding.{add_own, add_chumps, add_drop}
use rustydht_lib.Storage.NodeBucketStorage.{NodeBucketStorage, add_all, add_verified}

abbrev are_bytes : List ℕ → Bool
are_bytes [] = true
are_bytes (x ∷ xs) = ltb x 256 && are_bytes xs

are_bytes-All : (xs : List ℕ) → are_bytes xs ≡ true → All IsByte xs
are_bytes-All [] h = tt
are_bytes-All (x ∷ xs) h = (ground arith, are_bytes-All xs (ground arith))

All-are_bytes : (xs : List ℕ) → All IsByte xs → are_bytes xs ≡ true
All-are_bytes [] h = refl
All-are_bytes (x ∷ xs) h = ground (arith, All-are_bytes xs h.1, h.0)

-- The id of the node is no id.
abbrev pub bad : NodeWrapper → Bool
bad w = not ((length w.node.id.bytes == id_size) && are_bytes w.node.id.bytes)

pub bad_no : (w : NodeWrapper) → bad w ≡ false → IsId w.node.id
bad_no w h = record { size = ground arith; is_bytes = are_bytes-All w.node.id.bytes (ground arith) }

pub bad-IsId : (w : NodeWrapper) → IsId w.node.id → bad w ≡ false
bad-IsId w h =
    let bytes = All-are_bytes w.node.id.bytes h.is_bytes in
    let size = h.size in ground (arith, bytes, size)

-- Buckets around an id, with nodes whose ids are ids.
pub record IsPart (our_id : NodeId) (b : Buckets NodeWrapper) : Type 0 where
  pub valid : IsValid b
  pub own : b.our_id ≡ our_id
  pub ids : total bad b.buckets ≡ 0

-- How often the two buckets hold an id.
abbrev pub times : NodeBucketStorage → NodeId → ℕ
times s id = total (has_id id) s.verified.buckets + total (has_id id) s.unverified.buckets

-- Both buckets are valid and around the same id, and no id is in them twice.
pub record IsStorage (our_id : NodeId) (s : NodeBucketStorage) : Type 0 where
  pub is_id : IsId our_id
  pub verified : IsPart our_id s.verified
  pub unverified : IsPart our_id s.unverified
  pub once : (id : NodeId) → times s id ≤ 1

module _ (sort : UnstableSort NodeWrapper) (our_id : NodeId) (own : IsId our_id) where
  pub add_drop-IsPart :
      (u : Buckets NodeWrapper) (item : NodeWrapper)
      → IsPart our_id u
      → bad item ≡ false
      → (u' : Buckets NodeWrapper) × (add sort u item none ≡ some (u', none))
        × IsPart our_id u'
        × ((p : NodeWrapper → Bool)
            → total p u'.buckets ≤ total p u.buckets + count_if p (item ∷ []))
        × (u'.k ≡ u.k)
  unfolding node_wrapper_bucketable
  add_drop-IsPart u item h good = elim (Bool-cases (id_eq item.node.id u.our_id)) [
    | inl same ↦ (u, add_own sort u item none same, h, λ p. omega arith, refl)
    | inr other ↦
        let (u', run, valid, own', k', fewer) =
          add_drop sort u item (rw h.own own) (bad_no item good) other h.valid in
        (
          u',
          run,
          record {
            valid = valid;
            own = own' ∙ h.own;
            ids = ground (arith, fewer bad, h.ids, good);
          },
          fewer,
          k',
        )
  ]

  add_chumps-IsPart :
      (v : Buckets NodeWrapper) (item : NodeWrapper)
      → IsPart our_id v
      → bad item ≡ false
      → (v' : Buckets NodeWrapper) × (c : List NodeWrapper) × (add sort v item (some [])
          ≡ some (v', some c))
        × IsPart our_id v'
        × (count_if bad c ≡ 0)
        × ((p : NodeWrapper → Bool)
            → total p v'.buckets + count_if p c ≤ total p v.buckets + count_if p (item ∷ []))
  unfolding node_wrapper_bucketable
  add_chumps-IsPart v item h good = elim (Bool-cases (id_eq item.node.id v.our_id)) [
    | inl same ↦ (v, [], add_own sort v item (some []) same, h, refl, λ p. omega arith)
    | inr other ↦
        let (v', c, run, valid, own', k', kept) =
          add_chumps sort v item [] (rw h.own own) (bad_no item good) other h.valid in
        (
          v',
          c,
          run,
          record { valid = valid; own = own' ∙ h.own; ids = ground (arith, kept bad, h.ids, good) },
          ground (arith, kept bad, h.ids, good),
          λ p. omega (arith, kept p),
        )
  ]

  add_all-IsPart :
      (items : List NodeWrapper) (u : Buckets NodeWrapper)
      → IsPart our_id u
      → count_if bad items ≡ 0
      → (u' : Buckets NodeWrapper) × (add_all sort items u ≡ some u')
        × IsPart our_id u'
        × ((p : NodeWrapper → Bool) → total p u'.buckets ≤ total p u.buckets + count_if p items)
  unfolding add_all
  add_all-IsPart [] u h good = (u, refl, h, λ p. omega arith)
  add_all-IsPart (item ∷ items) u h good =
      let (u₁, run₁, h₁, fewer₁, k₁) = add_drop-IsPart u item h (ground (arith, good)) in
      let (u₂, run₂, h₂, fewer₂) = add_all-IsPart items u₁ h₁ (ground (arith, good)) in
      (u₂, rw (run₁, run₂) refl, h₂, λ p. omega (arith, fewer₁ p, fewer₂ p))

  -- Taking in a verified item keeps both buckets, and brings nothing else.
  pub add_verified-IsPart :
      (v u : Buckets NodeWrapper) (item : NodeWrapper)
      → IsPart our_id v
      → IsPart our_id u
      → bad item ≡ false
      → (s : NodeBucketStorage) × (add_verified sort v u item ≡ some s)
        × IsPart our_id s.verified
        × IsPart our_id s.unverified
        × ((p : NodeWrapper → Bool)
            → total p s.verified.buckets + total p s.unverified.buckets
              ≤ total p v.buckets + total p u.buckets + count_if p (item ∷ []))
  unfolding add_verified
  add_verified-IsPart v u item hv hu good =
      let (v', c, run, hv', good_c, kept) = add_chumps-IsPart v item hv good in
      let (u', run', hu', fewer) = add_all-IsPart c u hu good_c in
      (
        record { verified = v'; unverified = u' },
        rw (run, run') refl,
        hv',
        hu',
        λ p. omega (arith, kept p, fewer p),
      )
