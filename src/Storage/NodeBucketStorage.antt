-- ===== src/Storage/NodeBucketStorage.antt =====
-- src/storage/node_bucket_storage.rs: `NodeBucketStorage`. `now` is what `Instant::now` gives to
-- an operation, `now'` what it gives to `NodeWrapper::new` in it. `none` is a panic.
pub mod Invariant
pub mod Updates
pub mod Pruning
use rustydht_lib.Prelude.{
  ℕ, ◌-◌, Bool, true, false, ◌&&◌, ◌||◌, Option, none, some, List, [], ◌∷◌, map, ltb, leb,
  if◌then◌else◌,
}
use rustydht_lib.Prelude.Maybe.{◌>>=◌}
use rustydht_lib.Common.Id.{NodeId}
use rustydht_lib.Common.Net.{Node}
use rustydht_lib.Storage.Sort.{UnstableSort}
use rustydht_lib.Storage.NodeWrapper.{NodeWrapper, wrap, node_wrapper_bucketable}
use rustydht_lib.Storage.Buckets.{Buckets}
use rustydht_lib.Storage.Buckets

pub record NodeBucketStorage : Type 0 where
  pub verified : Buckets NodeWrapper
  pub unverified : Buckets NodeWrapper

unfoldable pub new : NodeId → ℕ → NodeBucketStorage
new our_id k = record { verified = Buckets.new our_id k; unverified = Buckets.new our_id k }

unfoldable pub clear : NodeBucketStorage → NodeBucketStorage
clear s = record { verified = Buckets.clear s.verified; unverified = Buckets.clear s.unverified }

unfoldable pub set_id : NodeBucketStorage → NodeId → NodeBucketStorage
set_id s new_id = record {
  verified = Buckets.set_id s.verified new_id;
  unverified = Buckets.set_id s.unverified new_id;
}

unfoldable pub count : NodeBucketStorage → ℕ × ℕ
count s = (Buckets.count s.unverified, Buckets.count s.verified)

unfoldable pub get_all_unverified : NodeBucketStorage → List NodeWrapper
get_all_unverified s = Buckets.values s.unverified

unfoldable pub get_all_verified : NodeBucketStorage → List NodeWrapper
get_all_verified s = Buckets.values s.verified

abbrev pub chumps_of : Option (List NodeWrapper) → List NodeWrapper
chumps_of none = []
chumps_of (some chumps) = chumps

-- The writes through the references that `get_mut` gives.
abbrev pub see : ℕ → NodeWrapper → NodeWrapper
see now w = record w { last_seen = now }

abbrev pub verify : ℕ → NodeWrapper → NodeWrapper
verify now w = record w { last_seen = now; last_verified = some now }

-- The `retain` tests of `prune`.
unfoldable pub verified_since : ℕ → NodeWrapper → Bool
verified_since time w = elim w.last_verified [
  | none ↦ false
  | some last_verified ↦ leb time last_verified
]

unfoldable pub keep_unverified : ℕ → ℕ → NodeWrapper → Bool
unfolding verified_since
keep_unverified time unverified_time w =
    verified_since time w || (leb time w.last_seen && leb unverified_time w.last_seen)

-- `Instant::checked_sub`
unfoldable pub checked_sub : ℕ → ℕ → Option ℕ
checked_sub now period = if ltb now period then none else some (now - period)

unfoldable pub prune : NodeBucketStorage → ℕ → ℕ → ℕ → ℕ → NodeBucketStorage
prune s now now' grace_period unverified_grace_period = elim (checked_sub now grace_period) [
  | none ↦ s
  | some time ↦ elim (checked_sub now' unverified_grace_period) [
    | none ↦ s
    | some unverified_time ↦ record {
      verified = Buckets.retain (verified_since time) s.verified;
      unverified = Buckets.retain (keep_unverified time unverified_time) s.unverified;
    }
  ]
]

module _ (sort : UnstableSort NodeWrapper) where
  unfoldable pub get_nearest_nodes : NodeBucketStorage → NodeId → Option NodeId → List Node
  get_nearest_nodes s id exclude =
      map (λ w. w.node) (Buckets.get_nearest_nodes sort s.verified id exclude)

  unfoldable pub add_or_update_last_seen :
      NodeBucketStorage → Node → ℕ → ℕ → Option NodeBucketStorage
  add_or_update_last_seen s node now now' = elim (Buckets.get_mut s.verified node.id (see now)) [
    | some verified ↦ some (record s { verified = verified })
    | none ↦ elim (Buckets.get_mut s.unverified node.id (see now)) [
      | some unverified ↦ some (record s { unverified = unverified })
      | none ↦ do
        (unverified, chumps) ← Buckets.add sort s.unverified (wrap node now') none
        some (record s { unverified = unverified })
    ]
  ]

  -- `for item in chump_list { self.unverified.add(item, None) }`
  unfoldable pub add_all : List NodeWrapper → Buckets NodeWrapper → Option (Buckets NodeWrapper)
  add_all [] u = some u
  add_all (item ∷ items) u = do (u', chumps) ← Buckets.add sort u item none; add_all items u'

  -- The item goes into `verified`, and what overflows into `unverified`.
  unfoldable pub add_verified :
      Buckets NodeWrapper → Buckets NodeWrapper → NodeWrapper → Option NodeBucketStorage
  add_verified v u item = do
    (v', chumps) ← Buckets.add sort v item (some [])
    u' ← add_all (chumps_of chumps) u
    some (record { verified = v'; unverified = u' })

  unfoldable pub add_or_update_verified :
      NodeBucketStorage → Node → ℕ → ℕ → Option NodeBucketStorage
  add_or_update_verified s node now now' = elim (Buckets.remove s.unverified node.id) [
    | some removed ↦ add_verified s.verified removed.1 (verify now removed.0)
    | none ↦ elim (Buckets.get_mut s.verified node.id (verify now)) [
      | some verified ↦ some (record s { verified = verified })
      | none ↦ add_verified s.verified s.unverified (verify now (wrap node now'))
    ]
  ]

  unfoldable pub add_or_update : NodeBucketStorage → Node → Bool → ℕ → ℕ → Option NodeBucketStorage
  add_or_update s node verified now now' =
      if verified
      then add_or_update_verified s node now now'
      else add_or_update_last_seen s node now now'
