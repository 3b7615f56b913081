-- ===== src/Storage/NodeBucketStorage/Updates.antt =====
-- src/storage/node_bucket_storage.rs: what the operations promise.
use rustydht_lib.Prelude.{
  ℕ, ◌+◌, ◌≤◌, ◌≡◌, refl, ◌∙◌, ◌⊎◌, ap, Bool, true, false, inl, inr, none, some, [], ◌∷◌, arith,
  Bool-cases, if◌then◌else◌, count_if,
}
use rustydht_lib.Common.Id.{NodeId, IsId, id_eq}
use rustydht_lib.Common.Id.Distance.{id_eq_iff}
use rustydht_lib.Common.Net.{Node}
use rustydht_lib.Storage.Sort.{UnstableSort}
use rustydht_lib.Storage.Vec.{total}
use rustydht_lib.Storage.NodeWrapper.{NodeWrapper, wrap, node_wrapper_bucketable}
use rustydht_lib.Storage.Buckets.{Buckets, has_id, get_mut}
use rustydht_lib.Storage.Buckets.Removal.{remove_lem, get_mut_lem}
use rustydht_lib.Storage.NodeBucketStorage.Invariant.{
  bad, bad-IsId, IsPart, IsStorage, times, add_drop-IsPart, add_verified-IsPart,
}
use rustydht_lib.Storage.NodeBucketStorage.{
  NodeBucketStorage, see, verify, add_or_update_last_seen, add_or_update_verified, add_or_update,
}

-- A write that leaves the node as it is.
abbrev KeepsNode : (NodeWrapper → NodeWrapper) → Type 0
KeepsNode write = (w : NodeWrapper) → (write w).node ≡ w.node

has_id-write :
    (write : NodeWrapper → NodeWrapper) (id : NodeId) (w : NodeWrapper)
    → KeepsNode write
    → count_if (has_id id) (write w ∷ []) ≡ count_if (has_id id) (w ∷ [])
unfolding has_id node_wrapper_bucketable
has_id-write write id w keep = rw (keep w) refl

bad-write :
    (write : NodeWrapper → NodeWrapper) (w : NodeWrapper)
    → KeepsNode write
    → count_if bad (write w ∷ []) ≡ count_if bad (w ∷ [])
bad-write write w keep = rw (keep w) refl

-- `get_mut` for such a write: the part keeps all its ids.
get_mut-IsPart :
    (our_id id : NodeId) (write : NodeWrapper → NodeWrapper) (b : Buckets NodeWrapper)
    → KeepsNode write
    → IsPart our_id b
    → ((get_mut b id write ≡ none) × (total (has_id id) b.buckets ≡ 0))
      ⊎ ((b' : Buckets NodeWrapper) × (get_mut b id write ≡ some b')
          × IsPart our_id b'
          × ((x : NodeId) → total (has_id x) b'.buckets ≡ total (has_id x) b.buckets))
unfolding node_wrapper_bucketable
get_mut-IsPart our_id id write b keep h =
    elim (get_mut_lem b id write h.valid (λ w. ap (λ n. n.id) (keep w))) [
      | inl missing ↦ inl missing
      | inr (w, b', run, has, valid, own, k, counts) ↦ inr (
        b',
        run,
        record {
          valid = valid;
          own = own ∙ h.own;
          ids = omega (arith, counts bad, bad-write write w keep, h.ids);
        },
        λ x. omega (arith, counts (has_id x), has_id-write write x w keep),
      )
    ]

-- Once for the node's own id.
abbrev pub own_times : NodeId → NodeId → ℕ
own_times id x = if id_eq id x then 1 else 0

count_if-own_times :
    (w : NodeWrapper) (x : NodeId) → count_if (has_id x) (w ∷ []) ≡ own_times w.node.id x
unfolding has_id node_wrapper_bucketable
count_if-own_times w x = ground arith

has_id_same :
    (x id : NodeId) (b : Buckets NodeWrapper)
    → id_eq id x ≡ true
    → total (has_id id) b.buckets ≡ total (has_id x) b.buckets
has_id_same x id b e = ap (λ i. total (has_id i) b.buckets) ((id_eq_iff id x).0 e)

module _ (sort : UnstableSort NodeWrapper) (our_id : NodeId) (s : NodeBucketStorage) (node : Node)
    (now now' : ℕ) where
  -- A node that neither part holds comes in once.
  new_once :
      (s' : NodeBucketStorage) (x : NodeId)
      → IsStorage our_id s
      → total (has_id node.id) s.verified.buckets ≡ 0
      → total (has_id node.id) s.unverified.buckets ≡ 0
      → times s' x ≤ times s x + own_times node.id x
      → times s' x ≤ 1
  new_once s' x h v u fewer = elim (Bool-cases (id_eq node.id x)) [
    | inl same ↦
        ground
          (arith, has_id_same x node.id s.verified same, has_id_same x node.id s.unverified same)
    | inr other ↦ let once = h.once x in ground (arith, once)
  ]

  seen_lem :
      IsStorage our_id s
      → IsId node.id
      → (s' : NodeBucketStorage) × (add_or_update_last_seen sort s node now now' ≡ some s')
        × IsStorage our_id s'
        × ((x : NodeId) → times s' x ≤ times s x + own_times node.id x)
  unfolding add_or_update_last_seen
  seen_lem h hn = elim (get_mut-IsPart our_id node.id (see now) s.verified (λ w. refl) h.verified) [
    | inr (v', run, hv', same) ↦ (
      record s { verified = v' },
      rw (add_or_update_last_seen, run) refl,
      record {
        is_id = h.is_id;
        verified = hv';
        unverified = h.unverified;
        once = λ x. omega (arith, same x, h.once x);
      },
      λ x. omega (arith, same x),
    )
    | inl (no_v, zero_v) ↦
        elim (get_mut-IsPart our_id node.id (see now) s.unverified (λ w. refl) h.unverified) [
          | inr (u', run, hu', same) ↦ (
            record s { unverified = u' },
            rw (add_or_update_last_seen, no_v, run) refl,
            record {
              is_id = h.is_id;
              verified = h.verified;
              unverified = hu';
              once = λ x. omega (arith, same x, h.once x);
            },
            λ x. omega (arith, same x),
          )
          | inl (no_u, zero_u) ↦
              let (u', run, hu', fewer, k') =
                add_drop-IsPart sort our_id h.is_id s.unverified (wrap node now') h.unverified
                  (bad-IsId (wrap node now') hn) in
              let more : (x : NodeId)
                  → times (record s { unverified = u' }) x ≤ times s x + own_times node.id x =
                λ x. omega (arith, fewer (has_id x), count_if-own_times (wrap node now') x) in
              (
                record s { unverified = u' },
                rw (add_or_update_last_seen, no_v, no_u, run) refl,
                record {
                  is_id = h.is_id;
                  verified = h.verified;
                  unverified = hu';
                  once = λ x. new_once (record s { unverified = u' }) x h zero_v zero_u (more x);
                },
                more,
              )
        ]
  ]

  verified_lem :
      IsStorage our_id s
      → IsId node.id
      → (s' : NodeBucketStorage) × (add_or_update_verified sort s node now now' ≡ some s')
        × IsStorage our_id s'
        × ((x : NodeId) → times s' x ≤ times s x + own_times node.id x)
  unfolding add_or_update_verified
  verified_lem h hn = elim (remove_lem s.unverified node.id h.unverified.valid) [
    | inr (w, u', run, has, valid, own, k, counts) ↦
        let good : bad (verify now w) ≡ false = ground (arith, counts bad, h.unverified.ids) in
        let hu : IsPart our_id u' = record {
          valid = valid;
          own = own ∙ h.unverified.own;
          ids = omega (arith, counts bad, h.unverified.ids);
        } in
        let (s', run', hv', hu', fewer) =
          add_verified-IsPart sort our_id h.is_id s.verified u' (verify now w) h.verified hu good in
        let no_more : (x : NodeId) → times s' x ≤ times s x = λ x.
          omega (
            arith,
            fewer (has_id x),
            counts (has_id x),
            has_id-write (verify now) x w (λ y. refl),
          ) in
        (
          s',
          rw (add_or_update_verified, run, run') refl,
          record {
            is_id = h.is_id;
            verified = hv';
            unverified = hu';
            once = λ x. omega (arith, no_more x, h.once x);
          },
          λ x. omega (arith, no_more x),
        )
    | inl (no_u, zero_u) ↦
        elim (get_mut-IsPart our_id node.id (verify now) s.verified (λ w. refl) h.verified) [
          | inr (v', run, hv', same) ↦ (
            record s { verified = v' },
            rw (add_or_update_verified, no_u, run) refl,
            record {
              is_id = h.is_id;
              verified = hv';
              unverified = h.unverified;
              once = λ x. omega (arith, same x, h.once x);
            },
            λ x. omega (arith, same x),
          )
          | inl (no_v, zero_v) ↦
              let new_item = verify now (wrap node now') in
              let (s', run, hv', hu', fewer) =
                add_verified-IsPart sort our_id h.is_id s.verified s.unverified new_item h.verified
                  h.unverified (bad-IsId new_item hn) in
              let more : (x : NodeId) → times s' x ≤ times s x + own_times node.id x =
                λ x. omega (arith, fewer (has_id x), count_if-own_times new_item x) in
              (
                s',
                rw (add_or_update_verified, no_u, no_v, run) refl,
                record {
                  is_id = h.is_id;
                  verified = hv';
                  unverified = hu';
                  once = λ x. new_once s' x h zero_v zero_u (more x);
                },
                more,
              )
        ]
  ]

  -- On a valid storage, and for a node whose id is 20 bytes, `add_or_update` ends without a panic,
  -- and keeps both parts valid and around the same id, with no
  -- id in them twice. No id but the node's own occurs more often than before.
  pub add_or_update_lem :
      (verified : Bool)
      → IsStorage our_id s
      → IsId node.id
      → (s' : NodeBucketStorage) × (add_or_update sort s node verified now now' ≡ some s')
        × IsStorage our_id s'
        × ((x : NodeId) → times s' x ≤ times s x + own_times node.id x)
  unfolding add_or_update
  add_or_update_lem true h hn = verified_lem h hn
  add_or_update_lem false h hn = seen_lem h hn
