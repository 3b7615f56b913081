-- ===== src/Dht/Interfaces/Instances.antt =====
-- The types of this library that implement the traits.
use rustydht_lib.Prelude.{refl, some}
use rustydht_lib.Common.Consensus
use rustydht_lib.Common.Consensus.Votes.{IsConsensus}
use rustydht_lib.Common.Consensus.Updates.{add_vote_lem}
use rustydht_lib.Common.Consensus.Choice.{decay_lem, get_best_ipv4_lem}
use rustydht_lib.Storage.Sort.{UnstableSort}
use rustydht_lib.Storage.NodeWrapper.{NodeWrapper}
use rustydht_lib.Storage.NodeBucketStorage
use rustydht_lib.Storage.NodeBucketStorage.Invariant.{IsStorage}
use rustydht_lib.Storage.NodeBucketStorage.Updates.{add_or_update_lem}
use rustydht_lib.Storage.NodeBucketStorage.Pruning.{new-IsStorage, prune-IsStorage}
use rustydht_lib.Dht.Interfaces.{Ipv4AddrSource, NodeStorage}

-- `impl IPV4AddrSource for IPV4Consensus`
abbrev pub consensus_source : Ipv4AddrSource
consensus_source = record {
  Source = Consensus.Ipv4Consensus;
  get_best_ipv4 = Consensus.get_best_ipv4;
  add_vote = λ c their_addr. Consensus.add_vote c;
  decay = Consensus.decay;
  IsSource = IsConsensus;
  get_best-total =
      λ c h. let p = get_best_ipv4_lem c (record { a = 0; b = 0; c = 0; d = 0 }) h in (p.0, p.1);
  add_vote-IsSource = λ c their_addr proposed_addr h.
      let p = add_vote_lem c proposed_addr proposed_addr h in (p.0, p.1, p.2);
  decay-IsSource = λ c h. (decay_lem c (record { a = 0; b = 0; c = 0; d = 0 }) h).0;
}

-- `impl IPV4AddrSource for StaticIPV4AddrSource`
abbrev pub static_source : Ipv4AddrSource
static_source = record {
  Source = Consensus.StaticIpv4AddrSource;
  get_best_ipv4 = λ s. some (Consensus.get_static_ipv4 s);
  add_vote = λ s their_addr proposed_addr. some s;
  decay = λ s. s;
  IsSource = λ s. Unit;
  get_best-total = λ s h. (Consensus.get_static_ipv4 s, refl);
  add_vote-IsSource = λ s their_addr proposed_addr h. (s, refl, tt);
  decay-IsSource = λ s h. tt;
}

-- `impl NodeStorage for NodeBucketStorage`
abbrev pub bucket_storage : UnstableSort NodeWrapper → NodeStorage
bucket_storage sort = record {
  Storage = NodeBucketStorage.NodeBucketStorage;
  add_or_update = NodeBucketStorage.add_or_update sort;
  count = NodeBucketStorage.count;
  get_all_unverified = NodeBucketStorage.get_all_unverified;
  get_all_verified = NodeBucketStorage.get_all_verified;
  get_nearest_nodes = NodeBucketStorage.get_nearest_nodes sort;
  prune = NodeBucketStorage.prune;
  set_id = NodeBucketStorage.set_id;
  IsStorage = IsStorage;
  add_or_update-IsStorage = λ our_id s node verified now now' h hn.
      let p = add_or_update_lem sort our_id s node now now' verified h hn in (p.0, p.1, p.2);
  prune-IsStorage = λ our_id s now now' grace unverified_grace h.
      prune-IsStorage our_id s now now' grace unverified_grace h;
  set_id-IsStorage = λ s new_id h. (new-IsStorage new_id 0 s h).1;
}
