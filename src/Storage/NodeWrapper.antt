-- ===== src/Storage/NodeWrapper.antt =====
-- src/storage/node_wrapper.rs: `NodeWrapper`. An instant is a number of ticks; what
-- `Instant::now` gives is an argument.
use rustydht_lib.Prelude.{ℕ, Option, none}
use rustydht_lib.Common.Net.{Node}
use rustydht_lib.Storage.Buckets.{Bucketable}

pub record NodeWrapper : Type 0 where
  pub node : Node
  pub first_seen : ℕ
  pub last_seen : ℕ
  pub last_verified : Option ℕ

abbrev pub wrap : Node → ℕ → NodeWrapper
wrap node now = record { node = node; first_seen = now; last_seen = now; last_verified = none }

instance unfoldable pub node_wrapper_bucketable : Bucketable NodeWrapper
node_wrapper_bucketable = record { get_id = λ w. w.node.id; get_first_seen = λ w. w.first_seen }
