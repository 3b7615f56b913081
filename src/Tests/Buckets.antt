-- ===== src/Tests/Buckets.antt =====
-- src/storage: the theorems on buckets and node storage at concrete nodes.
use rustydht_lib.Prelude.{
  ◌+◌, ◌≤◌, ◌<◌, ◌||◌, ◌≡◌, refl, ◌⊎◌, min, Bool, true, false, ◌&&◌, not, none, some, List, [], ◌∷◌,
  ◌++◌, arith, ltb, length, All, count_if,
}
use rustydht_lib.Common.Id.{
  NodeId, IsId, id_eq, bytes_eq, matching_prefix_bits, prefix_bits, xor, xor_bytes,
}
use rustydht_lib.Common.Id.Distance.{bytes_eq_iff}
use rustydht_lib.Prelude.Bits.{leading_zeros}
use rustydht_lib.Storage.Sort.{IsSortedBy}
use rustydht_lib.Storage.Sort.Insertion.{insertion_sort}
use rustydht_lib.Storage.Vec.{total}
use rustydht_lib.Storage.NodeWrapper.{NodeWrapper, node_wrapper_bucketable}
use rustydht_lib.Storage.Buckets.{
  Buckets, values, values_of, add, has_id, contains, get_mut, remove, get_nearest_nodes,
  is_excluded,
}
use rustydht_lib.Storage.Buckets.Invariant.{IsValid}
use rustydht_lib.Storage.Buckets.Adding.{add_chumps}
use rustydht_lib.Storage.Buckets.Lookup.{contains_iff}
use rustydht_lib.Storage.Buckets.Removal.{remove_lem, get_mut_lem}
use rustydht_lib.Storage.Buckets.Nearest.{distance, get_nearest_nodes_lem}
use rustydht_lib.Storage.NodeBucketStorage.{NodeBucketStorage, new, see, add_or_update, prune}
use rustydht_lib.Storage.NodeBucketStorage.Invariant.{IsStorage, times}
use rustydht_lib.Storage.NodeBucketStorage.Updates.{own_times, add_or_update_lem}
use rustydht_lib.Storage.NodeBucketStorage.Pruning.{
  new-IsStorage, within, verified_within, prune_lem,
}
use rustydht_lib.Tests.Data.{
  id_of, id_from, id_of-IsId, id_from-IsId, node_of, seen_at, one_bucket, one_bucket-IsValid, full,
  full-IsValid,
}

abbrev newcomer : NodeWrapper
newcomer = seen_at 64 3

newcomer_other : id_eq (node_wrapper_bucketable.get_id newcomer) full.our_id ≡ false
unfolding id_eq node_wrapper_bucketable
newcomer_other = refl

newcomer-IsId : IsId (node_wrapper_bucketable.get_id newcomer)
unfolding node_wrapper_bucketable
newcomer-IsId = id_from-IsId 64 (omega arith)

add_chumps_example :
    (s' : Buckets NodeWrapper) × (c' : List NodeWrapper) × (add insertion_sort full newcomer
        (some [])
      ≡ some (s', some c'))
    × IsValid s'
    × (s'.our_id ≡ full.our_id)
    × (s'.k ≡ full.k)
    × ((p : NodeWrapper → Bool)
        → total p s'.buckets + count_if p c' ≡ total p full.buckets + count_if p (newcomer ∷ []))
add_chumps_example =
    add_chumps insertion_sort full newcomer [] (id_of-IsId 0 (omega arith)) newcomer-IsId
      newcomer_other full-IsValid

contains_example : contains full (id_from 192) ≡ ltb 0 (total (has_id (id_from 192)) full.buckets)
contains_example = contains_iff full (id_from 192) full-IsValid

remove_example :
    ((remove full (id_from 192) ≡ none) × (total (has_id (id_from 192)) full.buckets ≡ 0))
    ⊎ ((x : NodeWrapper) × (s' : Buckets NodeWrapper) × (remove full (id_from 192) ≡ some (x, s'))
        × (has_id (id_from 192) x ≡ true)
        × IsValid s'
        × (s'.our_id ≡ full.our_id)
        × (s'.k ≡ full.k)
        × ((p : NodeWrapper → Bool)
            → total p full.buckets ≡ count_if p (x ∷ []) + total p s'.buckets))
remove_example = remove_lem full (id_from 192) full-IsValid

keeps_id :
    (w : NodeWrapper) → node_wrapper_bucketable.get_id (see 9 w) ≡ node_wrapper_bucketable.get_id w
unfolding node_wrapper_bucketable
keeps_id w = refl

get_mut_example :
    ((get_mut full (id_from 192) (see 9) ≡ none) × (total (has_id (id_from 192)) full.buckets ≡ 0))
    ⊎ ((x : NodeWrapper) × (s' : Buckets NodeWrapper) × (get_mut full (id_from 192) (see 9)
          ≡ some s')
        × (has_id (id_from 192) x ≡ true)
        × IsValid s'
        × (s'.our_id ≡ full.our_id)
        × (s'.k ≡ full.k)
        × ((p : NodeWrapper → Bool)
            → total p s'.buckets + count_if p (x ∷ [])
              ≡ total p full.buckets + count_if p (see 9 x ∷ [])))
get_mut_example = get_mut_lem full (id_from 192) (see 9) full-IsValid keeps_id

values-IsId : All (λ (x : NodeWrapper). IsId (node_wrapper_bucketable.get_id x)) (values full)
unfolding values values_of node_wrapper_bucketable
values-IsId = (id_from-IsId 128 (omega arith), (id_from-IsId 192 (omega arith), tt))

get_nearest_nodes_example :
    (others : List NodeWrapper) × IsSortedBy
      (distance insertion_sort (id_from 200))
      (get_nearest_nodes insertion_sort full (id_from 200) (some (id_from 128)) ++ others)
    × ((p : NodeWrapper → Bool)
        → count_if p
            (get_nearest_nodes insertion_sort full (id_from 200) (some (id_from 128)) ++ others)
          ≡ total (λ x. not (is_excluded (some (id_from 128)) x) && p x) full.buckets)
    × (length (get_nearest_nodes insertion_sort full (id_from 200) (some (id_from 128)))
        ≡ min full.k (total (λ x. not (is_excluded (some (id_from 128)) x)) full.buckets))
get_nearest_nodes_example =
    get_nearest_nodes_lem insertion_sort full (id_from 200) (some (id_from 128))
      (id_from-IsId 200 (omega arith)) values-IsId

abbrev storage : NodeBucketStorage
storage = new (id_of 0) 2

storage-IsStorage : IsStorage (id_of 0) storage
storage-IsStorage = (new-IsStorage (id_of 0) 2 storage (id_of-IsId 0 (omega arith))).0

add_or_update_example :
    (s' : NodeBucketStorage) × (add_or_update insertion_sort storage (node_of 64) true 5 6
      ≡ some s')
    × IsStorage (id_of 0) s'
    × ((x : NodeId) → times s' x ≤ times storage x + own_times (id_from 64) x)
add_or_update_example =
    add_or_update_lem insertion_sort (id_of 0) storage (node_of 64) 5 6 true storage-IsStorage
      (id_from-IsId 64 (omega arith))

-- A storage with a verified node and one that was seen.
abbrev checked : NodeWrapper
checked = record { node = node_of 128; first_seen = 1; last_seen = 13; last_verified = some 12 }

abbrev two_nodes : NodeBucketStorage
two_nodes = record {
  verified = one_bucket (checked ∷ []);
  unverified = one_bucket (seen_at 192 2 ∷ []);
}

two_nodes-IsStorage : IsStorage (id_of 0) two_nodes
unfolding matching_prefix_bits prefix_bits xor xor_bytes leading_zeros node_wrapper_bucketable
    has_id id_eq bytes_eq
two_nodes-IsStorage = record {
  is_id = id_of-IsId 0 (omega arith);
  verified = record {
    valid = one_bucket-IsValid (checked ∷ []) (omega arith) refl;
    own = refl;
    ids = refl;
  };
  unverified = record {
    valid = one_bucket-IsValid (seen_at 192 2 ∷ []) (omega arith) refl;
    own = refl;
    ids = refl;
  };
  once = λ x.
      ground
        (arith, bytes_eq_iff (id_from 128).bytes x.bytes, bytes_eq_iff (id_from 192).bytes x.bytes);
}

prune_example :
    IsStorage (id_of 0) (prune two_nodes 20 21 10 11)
    × (((20 < 10) ⊎ (21 < 11)) × (prune two_nodes 20 21 10 11 ≡ two_nodes)
        ⊎ (10 ≤ 20)
          × (11 ≤ 21)
          × ((p : NodeWrapper → Bool)
              → total p (prune two_nodes 20 21 10 11).verified.buckets
                ≡ total (λ w. verified_within 20 10 w && p w) two_nodes.verified.buckets)
          × ((p : NodeWrapper → Bool)
              → total p (prune two_nodes 20 21 10 11).unverified.buckets
                ≡ total
                    (λ w.
                      (verified_within 20 10 w
                        || (within 20 10 w.last_seen && within 21 11 w.last_seen))
                      && p w)
                    two_nodes.unverified.buckets))
prune_example = prune_lem (id_of 0) two_nodes 20 21 10 11 two_nodes-IsStorage
