-- ===== src/Dht/Interfaces.antt =====
-- The traits that a node of src/dht/dht.rs is built on: `IPV4AddrSource` (src/common/ipv4_addr_src.rs)
-- and `NodeStorage` (src/storage/node_bucket_storage.rs), with the laws that the node relies on.
-- `none` is a panic.
pub mod Instances
use rustydht_lib.Prelude.{ℕ, ◌≤◌, ◌≡◌, Bool, Option, some, List, All}
use rustydht_lib.Common.Id.{NodeId, IsId}
use rustydht_lib.Common.Net.{Ipv4Addr, Node}
use rustydht_lib.Storage.NodeWrapper.{NodeWrapper}

pub record Ipv4AddrSource : Type 1 where
  pub Source : Type 0
  pub get_best_ipv4 : Source → Option (Option Ipv4Addr)
  -- The address of the voter, and the one that it proposes.
  pub add_vote : Source → Ipv4Addr → Ipv4Addr → Option Source
  pub decay : Source → Source
  pub IsSource : Source → Type 0
  pub get_best-total :
      (s : Source) → IsSource s → (best : Option Ipv4Addr) × (get_best_ipv4 s ≡ some best)
  pub add_vote-IsSource :
      (s : Source) (their_addr proposed_addr : Ipv4Addr)
      → IsSource s
      → (s' : Source) × (add_vote s their_addr proposed_addr ≡ some s') × IsSource s'
  pub decay-IsSource : (s : Source) → IsSource s → IsSource (decay s)

pub record NodeStorage : Type 1 where
  pub Storage : Type 0
  -- The two numbers are the clock's.
  pub add_or_update : Storage → Node → Bool → ℕ → ℕ → Option Storage
  pub count : Storage → ℕ × ℕ
  pub get_all_unverified : Storage → List NodeWrapper
  pub get_all_verified : Storage → List NodeWrapper
  pub get_nearest_nodes : Storage → NodeId → Option NodeId → List Node
  pub prune : Storage → ℕ → ℕ → ℕ → ℕ → Storage
  pub set_id : Storage → NodeId → Storage
  -- The storage is well-formed, and arranged around this id.
  pub IsStorage : NodeId → Storage → Type 0
  pub add_or_update-IsStorage :
      (our_id : NodeId) (s : Storage) (node : Node) (verified : Bool) (now now' : ℕ)
      → IsStorage our_id s
      → IsId node.id
      → (s' : Storage) × (add_or_update s node verified now now' ≡ some s') × IsStorage our_id s'
  pub prune-IsStorage :
      (our_id : NodeId) (s : Storage) (now now' grace unverified_grace : ℕ)
      → IsStorage our_id s
      → IsStorage our_id (prune s now now' grace unverified_grace)
  pub set_id-IsStorage :
      (s : Storage) (new_id : NodeId) → IsId new_id → IsStorage new_id (set_id s new_id)
