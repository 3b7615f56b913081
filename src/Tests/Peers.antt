-- ===== src/Tests/Peers.antt =====
-- src/storage/peer_storage.rs: the theorems on peers, with the list cache.
use mathlib.Core.Path.{subst}
use rustydht_lib.Prelude.{sym, ◌≡◌, refl, ◌⊎◌, true, false, ◌&&◌, none, some, arith}
use rustydht_lib.Common.Id.{NodeId, id_eq}
use rustydht_lib.Common.Id.Distance.{id_eq_iff}
use rustydht_lib.Common.Net.{v4, SocketAddr, sockaddr_eq}
use rustydht_lib.Common.Net.Equality.{sockaddr_eq_refl, sockaddr_eq-same_left, id_eq-same_left}
use rustydht_lib.Storage.Lru.{Lru}
use rustydht_lib.Storage.Lru.ListCache.{list_lru}
use rustydht_lib.Storage.PeerStorage.{
  PeerInfo, PeerStorage, new, peer_info, announce_peer, get_peers,
}
use rustydht_lib.Storage.PeerStorage.Swarms.{
  IsPeerStorage, is_listed, is_served, peer_at, get_peers_lem,
}
use rustydht_lib.Storage.PeerStorage.Announcing.{NoRoom, announce_peer_lem, new-IsPeerStorage}
use rustydht_lib.Tests.Data.{id_of, local_ip, local_address}

abbrev pub swarms : Lru SocketAddr PeerInfo sockaddr_eq
swarms = list_lru sockaddr_eq sockaddr_eq_refl sockaddr_eq-same_left

abbrev pub torrents : Lru NodeId swarms.Cache id_eq
torrents = list_lru id_eq (λ a. (id_eq_iff a a).1 refl) id_eq-same_left

abbrev pub peers : PeerStorage swarms torrents
peers = new swarms torrents 2 3

-- A storage with one peer of one torrent.
abbrev first_address : SocketAddr
first_address = record { ip = v4 local_ip; port = 1 }

abbrev crowded : PeerStorage swarms torrents
crowded = announce_peer swarms torrents peers (id_of 7) first_address 5

pub peers-IsPeerStorage : IsPeerStorage swarms torrents peers
peers-IsPeerStorage =
    new-IsPeerStorage swarms torrents 2 3 (omega arith) (omega arith) (omega arith)

crowded-IsPeerStorage : IsPeerStorage swarms torrents crowded
crowded-IsPeerStorage =
    let p =
      announce_peer_lem swarms torrents peers (id_of 7) (id_of 7) first_address first_address 5
        peers-IsPeerStorage in
    subst (IsPeerStorage swarms torrents) (sym p.1) p.2

announce_peer_example :
    (s' : PeerStorage swarms torrents) × (announce_peer swarms torrents crowded
        (id_of 7)
        local_address
        6
      ≡ s')
    × IsPeerStorage swarms torrents s'
    × (((id_eq (id_of 7) (id_of 7) && sockaddr_eq local_address first_address) ≡ true)
          × (peer_at swarms torrents s' (id_of 7) first_address ≡ some (peer_info local_address 6))
        ⊎ ((id_eq (id_of 7) (id_of 7) && sockaddr_eq local_address first_address) ≡ false)
          × ((peer_at swarms torrents s' (id_of 7) first_address ≡ none)
                × NoRoom swarms torrents crowded (id_of 7) (id_of 7) local_address
              ⊎ (peer_at swarms torrents s' (id_of 7) first_address
                  ≡ peer_at swarms torrents crowded (id_of 7) first_address)))
announce_peer_example =
    announce_peer_lem swarms torrents crowded (id_of 7) (id_of 7) local_address first_address 6
      crowded-IsPeerStorage

get_peers_example :
    (is_listed local_address (get_peers swarms torrents peers (id_of 7) (some 4)).0
      ≡ is_served (some 4) local_address (peer_at swarms torrents peers (id_of 7) local_address))
    × (peer_at swarms torrents
          (get_peers swarms torrents peers (id_of 7) (some 4)).1
          (id_of 8)
          local_address
        ≡ peer_at swarms torrents peers (id_of 8) local_address)
    × IsPeerStorage swarms torrents (get_peers swarms torrents peers (id_of 7) (some 4)).1
get_peers_example =
    get_peers_lem swarms torrents peers (id_of 7) (id_of 8) (some 4) local_address
      peers-IsPeerStorage
