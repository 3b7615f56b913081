-- ===== src/Storage/PeerStorage/Swarms.antt =====
-- src/storage/peer_storage.rs: the storage as a map from a torrent and an address to a peer.
use rustydht_lib.Prelude.{
  ℕ, ◌≤◌, ◌<◌, ◌≡◌, refl, ap, ◌∙◌, inl, inr, Bool, true, false, ◌&&◌, ◌||◌, Option, none, some,
  List, [], ◌∷◌, map, arith, Bool-cases, count_if,
}
use rustydht_lib.Common.Id.{NodeId, id_eq}
use rustydht_lib.Common.Net.{SocketAddr, sockaddr_eq, is_ipv4}
use rustydht_lib.Common.Net.Equality.{is_ipv4-same, sockaddr_eq_refl, sockaddr_eq-same_left}
use rustydht_lib.Storage.Lru.{Lru, lookup}
use rustydht_lib.Storage.PeerStorage.{
  PeerInfo, is_fresh, infos_of, PeerStorage, get_peers_info, get_peers,
}

-- The address is in the list.
abbrev pub is_listed : SocketAddr → List SocketAddr → Bool
is_listed x [] = false
is_listed x (y ∷ ys) = sockaddr_eq y x || is_listed x ys

-- An entry is listed if it is there, for an IPv4 address, and fresh.
abbrev pub is_served : Option ℕ → SocketAddr → Option PeerInfo → Bool
is_served newer_than x none = false
is_served newer_than x (some info) = is_ipv4 x.ip && is_fresh newer_than info

-- The entry for an address holds that address.
abbrev pub holds : SocketAddr → Option PeerInfo → Bool
holds x none = true
holds x (some info) = sockaddr_eq info.addr x

abbrev addrs : List PeerInfo → List SocketAddr
addrs infos = map (λ info. info.addr) infos

abbrev keys_of : SocketAddr → List (SocketAddr × PeerInfo) → ℕ
keys_of x es = count_if (λ e. sockaddr_eq e.0 x) es

lookup-none :
    (x : SocketAddr) (es : List (SocketAddr × PeerInfo))
    → keys_of x es ≡ 0
    → lookup sockaddr_eq x es ≡ none
lookup-none x [] h = refl
lookup-none x (e ∷ es) h = elim (Bool-cases (sockaddr_eq e.0 x)) [
  | inl k ↦ absurd (ground (arith, k, h))
  | inr k ↦ rw k (lookup-none x es (ground (arith, k, h)))
]

sockaddr_ipv4 : (a b : SocketAddr) → sockaddr_eq a b ≡ true → is_ipv4 a.ip ≡ is_ipv4 b.ip
unfolding sockaddr_eq
sockaddr_ipv4 a b e = is_ipv4-same a.ip b.ip (ground arith)

-- The first entry is the one looked for, or the rest decides.
listed_first :
    (newer_than : Option ℕ) (x : SocketAddr) (e : SocketAddr × PeerInfo)
    (es : List (SocketAddr × PeerInfo))
    → sockaddr_eq e.1.addr e.0 ≡ true
    → is_listed x (addrs (infos_of newer_than (e ∷ es))) ≡ (
        (sockaddr_eq e.0 x && is_served newer_than x (some e.1))
        || is_listed x (addrs (infos_of newer_than es)))
unfolding infos_of
listed_first newer_than x e es h =
    ground (arith, sockaddr_eq-same_left e.1.addr e.0 x h, sockaddr_ipv4 e.0 x)

rest_holds :
    (e : SocketAddr × PeerInfo) (es : List (SocketAddr × PeerInfo)) (y : SocketAddr)
    → holds y (lookup sockaddr_eq y (e ∷ es)) ≡ true
    → keys_of y (e ∷ es) ≤ 1
    → holds y (lookup sockaddr_eq y es) ≡ true
rest_holds e es y held once = elim (Bool-cases (sockaddr_eq e.0 y)) [
  | inl k ↦ rw (lookup-none y es (ground (arith, k, once))) refl
  | inr k ↦ ground (arith, k, held)
]

-- What is listed of the entries of a swarm.
listed-infos_of :
    (newer_than : Option ℕ) (x : SocketAddr) (es : List (SocketAddr × PeerInfo))
    → ((y : SocketAddr) → holds y (lookup sockaddr_eq y es) ≡ true)
    → ((y : SocketAddr) → keys_of y es ≤ 1)
    → is_listed x (addrs (infos_of newer_than es))
      ≡ is_served newer_than x (lookup sockaddr_eq x es)
unfolding infos_of
listed-infos_of newer_than x [] held once = refl
listed-infos_of newer_than x (e ∷ es) held once =
    let own : sockaddr_eq e.1.addr e.0 ≡ true = ground (arith, held e.0, sockaddr_eq_refl e.0) in
    let rest =
      listed-infos_of newer_than x es (λ y. rest_holds e es y (held y) (once y))
        (λ y. ground (arith, once y)) in
    ground (arith, listed_first newer_than x e es own, rest, lookup-none x es, once x)

module _ (swarms : Lru SocketAddr PeerInfo sockaddr_eq)
    (torrents : Lru NodeId swarms.Cache id_eq) where
  -- The peer that a swarm, if there is one, has at an address.
  abbrev pub peer_in : SocketAddr → Option swarms.Cache → Option PeerInfo
  peer_in x none = none
  peer_in x (some swarm) = lookup sockaddr_eq x (swarms.iter swarm)

  abbrev pub swarm_of : PeerStorage swarms torrents → NodeId → Option swarms.Cache
  swarm_of s info_hash = lookup id_eq info_hash (torrents.iter s.peers)

  -- The storage as a map.
  abbrev pub peer_at : PeerStorage swarms torrents → NodeId → SocketAddr → Option PeerInfo
  peer_at s info_hash x = peer_in x (swarm_of s info_hash)

  abbrev pub swarm_cap : ℕ → Option swarms.Cache → ℕ
  swarm_cap most none = most
  swarm_cap most (some swarm) = swarms.cap swarm

  -- There is room for a torrent and for a peer in each, the torrents are no more than an `i32` counts, and a peer is stored at its address.
  pub record IsPeerStorage (s : PeerStorage swarms torrents) : Type 0 where
    pub room : 1 ≤ s.max_peers_per_torrent
    pub torrents_room : 1 ≤ torrents.cap s.peers
    pub torrents_few : torrents.cap s.peers < 2147483648
    pub caps :
        (h : NodeId) → swarm_cap s.max_peers_per_torrent (swarm_of s h) ≡ s.max_peers_per_torrent
    pub held : (h : NodeId) (x : SocketAddr) → holds x (peer_at s h x) ≡ true

  infos_served :
      (newer_than : Option ℕ) (x : SocketAddr) (swarm : Option swarms.Cache)
      → ((y : SocketAddr) → holds y (peer_in y swarm) ≡ true)
      → is_listed x
          (addrs (elim swarm [ none ↦ [] | some c ↦ infos_of newer_than (swarms.iter c) ]))
        ≡ is_served newer_than x (peer_in x swarm)
  infos_served newer_than x none held = refl
  infos_served newer_than x (some swarm) held =
      listed-infos_of newer_than x (swarms.iter swarm) held (swarms.once swarm)

  -- `get_peers` lists an address exactly if the storage has a peer at it, it is an IPv4 address,
  -- and the peer was announced after the time asked for. It changes no peer, and keeps the
  -- invariant.
  pub get_peers_lem :
      (s : PeerStorage swarms torrents) (info_hash h : NodeId) (newer_than : Option ℕ)
      (x : SocketAddr)
      → IsPeerStorage s
      → (is_listed x (get_peers swarms torrents s info_hash newer_than).0
          ≡ is_served newer_than x (peer_at s info_hash x))
        × (peer_at (get_peers swarms torrents s info_hash newer_than).1 h x ≡ peer_at s h x)
        × IsPeerStorage (get_peers swarms torrents s info_hash newer_than).1
  unfolding get_peers get_peers_info
  get_peers_lem s info_hash h newer_than x ok =
      let kept : (j : NodeId)
          → swarm_of (get_peers swarms torrents s info_hash newer_than).1 j ≡ swarm_of s j =
        λ j. (torrents.get-keeps s.peers info_hash j).0 in
      (
        rw (torrents.get-value s.peers info_hash)
            (infos_served newer_than x (swarm_of s info_hash) (ok.held info_hash)),
        ap (peer_in x) (kept h),
        record {
          room = ok.room;
          torrents_room =
              omega (arith, (torrents.get-keeps s.peers info_hash info_hash).1, ok.torrents_room);
          torrents_few =
              omega (arith, (torrents.get-keeps s.peers info_hash info_hash).1, ok.torrents_few);
          caps = λ j. ap (swarm_cap s.max_peers_per_torrent) (kept j) ∙ ok.caps j;
          held = λ j y. ap (λ z. holds y (peer_in y z)) (kept j) ∙ ok.held j y;
        },
      )
