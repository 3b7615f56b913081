-- ===== src/Storage/Buckets/Nearest.antt =====
-- src/storage/buckets.rs: `values`, `count` and `get_nearest_nodes`.
use rustydht_lib.Prelude.{
  ℕ, ◌≡◌, refl, ◌∙◌, min, Bool, ◌&&◌, not, true, Option, List, [], ◌∷◌, ◌++◌, compare, arith,
  length, length-append, length-take, drop, take-append-drop, All, count_if, count_if-all,
  count_if-append,
}
use rustydht_lib.Common.Id.{NodeId, IsId, xor, partial_cmp}
use rustydht_lib.Common.Id.Distance.{xor-IsId}
use rustydht_lib.Common.Id.Order.{value, partial_cmp-value}
use rustydht_lib.Storage.Sort.{UnstableSort, IsSortedBy, count_if-perm}
use rustydht_lib.Storage.Vec.{total}
use rustydht_lib.Storage.Buckets.{
  Bucketable, Buckets, values_of, values, count_of, count, retain_list, is_excluded, distance_cmp,
  get_nearest_nodes,
}
use rustydht_lib.Storage.Buckets.Invariant.{All-retain_list, count_if-retain_list}

module _ {ℓ} {T : Type ℓ} where
  count_if-values_of : (p : T → Bool) (bs : List (List T)) → count_if p (values_of bs) ≡ total p bs
  unfolding values_of
  count_if-values_of p [] = refl
  count_if-values_of p (x ∷ bs) =
      omega (arith, count_if-append p x (values_of bs), count_if-values_of p bs)

  count_of-length : (bs : List (List T)) → count_of bs ≡ length (values_of bs)
  unfolding count_of values_of
  count_of-length [] = refl
  count_of-length (x ∷ bs) = omega (arith, length-append {ℓ} x (values_of bs), count_of-length bs)

  -- `values` gives the items of all buckets, and `count` is how many they are.
  pub values_lem :
      (s : Buckets T)
      → ((p : T → Bool) → count_if p (values s) ≡ total p s.buckets) × (count s ≡ length (values s))
  unfolding values count
  values_lem s = (λ p. count_if-values_of p s.buckets, count_of-length s.buckets)

module _ {ℓ} {T : Type ℓ} where
  count_if-true : (p : T → Bool) (xs : List T) → count_if (λ x. p x && true) xs ≡ count_if p xs
  count_if-true p [] = refl
  count_if-true p (x ∷ xs) = ground (arith, count_if-true p xs)

  total-true : (p : T → Bool) (bs : List (List T)) → total (λ x. p x && true) bs ≡ total p bs
  total-true p [] = refl
  total-true p (x ∷ bs) = omega (arith, count_if-true p x, total-true p bs)

module _ {ℓ} {T : Type ℓ} ⦃b : Bucketable T⦄ (sort : UnstableSort T) where
  -- The distance of an item to an id, as a number.
  pub distance : NodeId → T → ℕ
  distance id x = value (xor (b.get_id x) id).bytes

  cmp-distance :
      (id : NodeId) (x y : T)
      → IsId id
      → IsId (b.get_id x)
      → IsId (b.get_id y)
      → distance_cmp id x y ≡ compare (distance id x) (distance id y)
  unfolding distance_cmp distance partial_cmp
  cmp-distance id x y h hx hy = ground (
    arith,
    partial_cmp-value (xor (b.get_id x) id) (xor (b.get_id y) id) (xor-IsId hx h) (xor-IsId hy h),
  )

  -- If the id that is asked for and those of the items are 20 bytes, `get_nearest_nodes` returns,
  -- from the nearest to the farthest by the exclusive or, the first k
  -- of the items that are not excluded (all of them, if there are fewer): together with some
  -- others behind them, which are at least as far, they are those items.
  pub get_nearest_nodes_lem :
      (s : Buckets T) (id : NodeId) (exclude : Option NodeId)
      → IsId id
      → All (λ x. IsId (b.get_id x)) (values s)
      → (others : List T) × IsSortedBy (distance id) (get_nearest_nodes sort s id exclude ++ others)
        × ((p : T → Bool)
            → count_if p (get_nearest_nodes sort s id exclude ++ others)
              ≡ total (λ x. not (is_excluded exclude x) && p x) s.buckets)
        × (length (get_nearest_nodes sort s id exclude)
            ≡ min s.k (total (λ x. not (is_excluded exclude x)) s.buckets))
  unfolding get_nearest_nodes
  get_nearest_nodes_lem s id exclude h hs = (
    drop s.k sorted,
    rw (take-append-drop s.k sorted) (
        sort.sort_by-IsSortedBy (distance_cmp id) (distance id) (λ x. IsId (b.get_id x)) wanted
          (λ x y hx hy. cmp-distance id x y h hx hy)
          (All-retain_list _ (λ x. not (is_excluded exclude x)) (values s) hs)),
    λ p. rw (take-append-drop s.k sorted) (counted p),
    omega (
      arith,
      length-take s.k sorted,
      count_if-all {ℓ} sorted,
      counted (λ _. true),
      total-true (λ x. not (is_excluded exclude x)) s.buckets,
    ),
  )
    where
      wanted : List T
      wanted = retain_list (λ x. not (is_excluded exclude x)) (values s)

      sorted : List T
      sorted = sort.sort_by (distance_cmp id) wanted

      counted :
          (p : T → Bool)
          → count_if p sorted ≡ total (λ x. not (is_excluded exclude x) && p x) s.buckets
      counted p =
          count_if-perm p (sort.sort_by-perm (distance_cmp id) wanted)
          ∙ count_if-retain_list p (λ x. not (is_excluded exclude x)) (values s)
          ∙ (values_lem s).0 _
