-- ===== src/Dht/Builder.antt =====
-- src/dht/builder.rs: `DHTBuilder`, and its defaults. The address that the socket is bound to is
-- given with the state.
use rustydht_lib.Common.Error.{Result}
use rustydht_lib.Prelude.{Bool, ℕ, Option, none, some, List}
use rustydht_lib.Common.Consensus
use rustydht_lib.Common.Id.{NodeId, zero_id, id_eq}
use rustydht_lib.Common.Net.{SocketAddr, v4, sockaddr_eq}
use rustydht_lib.Storage.Lru.{Lru}
use rustydht_lib.Storage.NodeBucketStorage
use rustydht_lib.Storage.NodeWrapper.{NodeWrapper}
use rustydht_lib.Storage.PeerStorage.{PeerInfo}
use rustydht_lib.Storage.Sort.{UnstableSort}
use rustydht_lib.Dht.Interfaces.Instances.{consensus_source, bucket_storage}
use rustydht_lib.Dht.Maintenance.{Seeds, new}
use rustydht_lib.Dht.Settings.{DhtSettings, default}
use rustydht_lib.Dht.State.{World, DhtState}

abbrev pub unwrap_or {ℓ} : {A : Type ℓ} → Option A → A → A
unwrap_or none d = d
unwrap_or (some a) d = a

-- 0.0.0.0:6881
abbrev pub default_addr : SocketAddr
default_addr = record { ip = v4 (record { a = 0; b = 0; c = 0; d = 0 }); port = 6881 }

-- A node with the types of this library for its two traits.
module _ (sort : UnstableSort NodeWrapper) (swarms : Lru SocketAddr PeerInfo sockaddr_eq)
    (torrents : Lru NodeId swarms.Cache id_eq) (checksum : List ℕ → ℕ)
    (sample : ℕ → List NodeId → ℕ → List NodeId) where
  abbrev pub default_world : World
  default_world = record {
    source = consensus_source;
    nodes = bucket_storage sort;
    swarms = swarms;
    torrents = torrents;
    checksum = checksum;
    sample = sample;
  }

  pub record DhtBuilder : Type 0 where
    pub initial_id : Option NodeId
    pub listen_addr : Option SocketAddr
    pub ip_source : Option Consensus.Ipv4Consensus
    pub route_table : Option NodeBucketStorage.NodeBucketStorage
    pub settings : Option DhtSettings

  unfoldable pub new_builder : DhtBuilder
  new_builder = record {
    initial_id = none;
    listen_addr = none;
    ip_source = none;
    route_table = none;
    settings = none;
  }

  unfoldable pub initial_id : DhtBuilder → NodeId → DhtBuilder
  initial_id b v = record b { initial_id = some v }

  unfoldable pub listen_addr : DhtBuilder → SocketAddr → DhtBuilder
  listen_addr b v = record b { listen_addr = some v }

  unfoldable pub ip_source : DhtBuilder → Consensus.Ipv4Consensus → DhtBuilder
  ip_source b v = record b { ip_source = some v }

  unfoldable pub route_table : DhtBuilder → NodeBucketStorage.NodeBucketStorage → DhtBuilder
  route_table b v = record b { route_table = some v }

  unfoldable pub settings : DhtBuilder → DhtSettings → DhtBuilder
  settings b v = record b { settings = some v }

  unfoldable pub build :
      (SocketAddr → Bool) → DhtBuilder → Seeds → Option (Result (DhtState default_world))
  build binds b seeds =
      new default_world binds seeds b.initial_id (unwrap_or b.listen_addr default_addr)
        (unwrap_or b.ip_source (Consensus.new 2 10))
        (unwrap_or b.route_table (NodeBucketStorage.new zero_id 8)) (unwrap_or b.settings default)
