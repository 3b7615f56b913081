-- ===== src/Storage/Buckets/Adding.antt =====
-- src/storage/buckets.rs: what `add` promises its callers.
use rustydht_lib.Prelude.{
  ◌+◌, ◌≤◌, ◌≡◌, refl, ap, ◌∙◌, Bool, true, false, Option, none, some, List, [], ◌∷◌, arith, length,
  count_if,
}
use rustydht_lib.Common.Id.{IsId, id_eq}
use rustydht_lib.Storage.Sort.{UnstableSort}
use rustydht_lib.Storage.Vec.{total}
use rustydht_lib.Storage.Buckets.Moves.{dest_idx-lt}
use rustydht_lib.Storage.Buckets.Rounds.{Conserved}
use rustydht_lib.Storage.Buckets.Invariant.{IsValid, add_other, total-push_at}
use rustydht_lib.Storage.Buckets.{Bucketable, Buckets, dest_idx, push_at, add}

module _ {ℓ} {T : Type ℓ} ⦃b : Bucketable T⦄ (sort : UnstableSort T) (s : Buckets T)
    (item : T) where
  -- An item with our own id is not added: nothing changes.
  pub add_own :
      (chumps : Option (List T))
      → id_eq (b.get_id item) s.our_id ≡ true
      → add sort s item chumps ≡ some (s, chumps)
  unfolding add
  add_own chumps own = rw own

  -- `add` to valid buckets, of an item whose id is another than ours (both are 20 bytes), for a
  -- caller that takes the chumps: it ends without a panic, keeps the buckets valid, the own id and
  -- the capacity, and the items in the buckets and among the chumps afterwards are those from
  -- before and the new one, each as often.
  pub add_chumps :
      (c : List T)
      → IsId s.our_id
      → IsId (b.get_id item)
      → id_eq (b.get_id item) s.our_id ≡ false
      → IsValid s
      → (s' : Buckets T) × (c' : List T) × (add sort s item (some c) ≡ some (s', some c'))
        × IsValid s'
        × (s'.our_id ≡ s.our_id)
        × (s'.k ≡ s.k)
        × ((p : T → Bool)
            → total p s'.buckets + count_if p c' ≡ total p s.buckets + count_if p (item ∷ c))
  add_chumps c hs hi other v =
      let (bs, chumps, run, valid, m) = add_other sort s item (some c) hs hi other v in
      taken bs chumps run valid m
    where
      taken :
          (bs : List (List T)) (chumps : Option (List T))
          → add sort s item (some c) ≡ some (record s { buckets = bs }, chumps)
          → IsValid (record s { buckets = bs })
          → Conserved
              (push_at (dest_idx s.our_id (length s.buckets) item) item s.buckets)
              (some c)
              bs
              chumps
          → (s' : Buckets T) × (c' : List T) × (add sort s item (some c) ≡ some (s', some c'))
            × IsValid s'
            × (s'.our_id ≡ s.our_id)
            × (s'.k ≡ s.k)
            × ((p : T → Bool)
                → total p s'.buckets + count_if p c' ≡ total p s.buckets + count_if p (item ∷ c))
      taken bs none run valid m = absurd (ground (arith, m.same_list))
      taken bs (some c') run valid m = (
        record s { buckets = bs },
        c',
        run,
        valid,
        refl,
        refl,
        λ p. omega (
          arith,
          m.kept refl p,
          total-push_at p (dest_idx s.our_id (length s.buckets) item) item s.buckets
              (dest_idx-lt s.our_id (length s.buckets) item v.some_bucket),
        ),
      )

  -- `add` to valid buckets, of an item whose id is another than ours (both are 20 bytes), for a
  -- caller that gives no list of chumps: it ends without a panic, and keeps the buckets valid, the
  -- own id and the capacity. What does not fit is lost, so no item occurs more often than before,
  -- but for the new one.
  pub add_drop :
      IsId s.our_id
      → IsId (b.get_id item)
      → id_eq (b.get_id item) s.our_id ≡ false
      → IsValid s
      → (s' : Buckets T) × (add sort s item none ≡ some (s', none))
        × IsValid s'
        × (s'.our_id ≡ s.our_id)
        × (s'.k ≡ s.k)
        × ((p : T → Bool) → total p s'.buckets ≤ total p s.buckets + count_if p (item ∷ []))
  add_drop hs hi other v =
      let (bs, chumps, run, valid, m) = add_other sort s item none hs hi other v in
      let none_left : chumps ≡ none = ground (arith, m.same_list) in
      (
        record s { buckets = bs },
        run ∙ ap (λ (c : Option (List T)). some (record s { buckets = bs }, c)) none_left,
        valid,
        refl,
        refl,
        λ p. omega (
          arith,
          m.fewer p,
          total-push_at p (dest_idx s.our_id (length s.buckets) item) item s.buckets
              (dest_idx-lt s.our_id (length s.buckets) item v.some_bucket),
        ),
      )
