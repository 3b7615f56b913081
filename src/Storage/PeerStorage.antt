-- ===== src/Storage/PeerStorage.antt =====
-- src/storage/peer_storage.rs: the peers of a torrent, in a cache of caches. `now` is what
-- `Instant::now` gives. The two caches of the lru crate are parameters.
pub mod Swarms
pub mod Announcing
use rustydht_lib.Prelude.{
  ℕ, Bool, true, false, ◌&&◌, Option, none, some, List, [], ◌∷◌, map, ltb, if◌then◌else◌,
}
use rustydht_lib.Common.Id.{NodeId, id_eq}
use rustydht_lib.Common.Net.{SocketAddr, sockaddr_eq, is_ipv4}
use rustydht_lib.Storage.Lru.{Lru}

pub record PeerInfo : Type 0 where
  pub addr : SocketAddr
  pub last_updated : ℕ

unfoldable pub peer_info : SocketAddr → ℕ → PeerInfo
peer_info addr now = record { addr = addr; last_updated = now }

-- The filters on the iterator of a swarm, in their order, and the values of what is left.
unfoldable pub is_fresh : Option ℕ → PeerInfo → Bool
is_fresh none info = true
is_fresh (some newer_than) info = ltb newer_than info.last_updated

unfoldable pub infos_of : Option ℕ → List (SocketAddr × PeerInfo) → List PeerInfo
infos_of newer_than [] = []
infos_of newer_than (pi ∷ pis) =
    if is_ipv4 (pi.0).ip && is_fresh newer_than pi.1
    then pi.1 ∷ infos_of newer_than pis
    else infos_of newer_than pis

module _ (swarms : Lru SocketAddr PeerInfo sockaddr_eq)
    (torrents : Lru NodeId swarms.Cache id_eq) where
  pub record PeerStorage : Type 0 where
    pub peers : torrents.Cache
    pub max_peers_per_torrent : ℕ

  unfoldable pub new : ℕ → ℕ → PeerStorage
  new max_torrents max_peers_per_torrent = record {
    peers = torrents.new max_torrents;
    max_peers_per_torrent = max_peers_per_torrent;
  }

  unfoldable pub announce_peer : PeerStorage → NodeId → SocketAddr → ℕ → PeerStorage
  unfolding peer_info
  announce_peer s info_hash peer_addr now =
      elim (torrents.get_mut s.peers info_hash
        (λ swarm_lru. swarms.put swarm_lru peer_addr (peer_info peer_addr now))) [
          | some peers ↦ record s { peers = peers }
          | none ↦ record s {
            peers = torrents.put s.peers info_hash (
                swarms.put (swarms.new s.max_peers_per_torrent) peer_addr
                  (peer_info peer_addr now));
          }
        ]

  -- The cache notes that the torrent was asked for, behind a shared reference.
  unfoldable pub get_peers_info : PeerStorage → NodeId → Option ℕ → List PeerInfo × PeerStorage
  get_peers_info s info_hash newer_than =
      let got = torrents.get s.peers info_hash in
      (
        elim got.0 [ none ↦ [] | some swarm_lru ↦ infos_of newer_than (swarms.iter swarm_lru) ],
        record s { peers = got.1 },
      )

  unfoldable pub get_peers : PeerStorage → NodeId → Option ℕ → List SocketAddr × PeerStorage
  unfolding get_peers_info
  get_peers s info_hash newer_than =
      let got = get_peers_info s info_hash newer_than in (map (λ info. info.addr) got.0, got.1)

  unfoldable pub get_info_hashes : PeerStorage → List NodeId
  get_info_hashes s = map (λ kv. kv.0) (torrents.iter s.peers)
