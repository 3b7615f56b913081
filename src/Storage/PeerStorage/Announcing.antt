-- ===== src/Storage/PeerStorage/Announcing.antt =====
-- src/storage/peer_storage.rs: what `announce_peer` does to the map.
use rustydht_lib.Prelude.{
  ℕ, ◌≤◌, ◌<◌, ◌≡◌, refl, sym, ap, ◌∙◌, ◌⊎◌, length, Option, inl, inr, true, false, ◌&&◌, none,
  some, arith, if◌then◌else◌, Bool-cases, Option-cases,
}
use rustydht_lib.Common.Id.{NodeId, id_eq}
use rustydht_lib.Common.Id.Distance.{id_eq_iff}
use rustydht_lib.Common.Net.{SocketAddr, sockaddr_eq}
use rustydht_lib.Storage.Lru.{Lru, lookup}
use rustydht_lib.Storage.PeerStorage.{PeerInfo, peer_info, PeerStorage, new, announce_peer}
use rustydht_lib.Storage.PeerStorage.Swarms.{
  holds, peer_in, swarm_of, peer_at, swarm_cap, IsPeerStorage,
}

module _ (swarms : Lru SocketAddr PeerInfo sockaddr_eq)
    (torrents : Lru NodeId swarms.Cache id_eq) where
  abbrev pub swarm_size : Option swarms.Cache → ℕ
  swarm_size none = 0
  swarm_size (some swarm) = length (swarms.iter swarm)

  -- There is no room for a peer at `a` of the torrent `h` beside what is stored for the torrent `j`:
  -- it is a new peer of the same torrent, whose swarm is full, or a peer of a new torrent, and there
  -- are as many torrents as there may be.
  abbrev pub NoRoom : PeerStorage swarms torrents → NodeId → NodeId → SocketAddr → Type 0
  NoRoom s h j a =
      (id_eq h j ≡ true)
        × (peer_at swarms torrents s h a ≡ none)
        × (swarm_size (swarm_of swarms torrents s h) ≡ s.max_peers_per_torrent)
      ⊎ (id_eq h j ≡ false)
        × (swarm_of swarms torrents s h ≡ none)
        × (length (torrents.iter s.peers) ≡ torrents.cap s.peers)

  -- The swarm that the peer is put into, and where it is found then.
  record IsAfter (s s' : PeerStorage swarms torrents) (h : NodeId) (a : SocketAddr)
      (info : PeerInfo) (c : swarms.Cache) : Type 0 where
    cap : swarms.cap c ≡ s.max_peers_per_torrent
    peers : (x : SocketAddr) → lookup sockaddr_eq x (swarms.iter c) ≡ peer_at swarms torrents s h x
    size : length (swarms.iter c) ≡ swarm_size (swarm_of swarms torrents s h)
    own :
        (j : NodeId) → id_eq h j ≡ true → swarm_of swarms torrents s' j ≡ some (swarms.put c a info)
    other :
        (j : NodeId)
        → id_eq h j ≡ false
        → (swarm_of swarms torrents s' j ≡ none)
            × (swarm_of swarms torrents s h ≡ none)
            × (length (torrents.iter s.peers) ≡ torrents.cap s.peers)
          ⊎ (swarm_of swarms torrents s' j ≡ swarm_of swarms torrents s j)
    torrents_cap : torrents.cap s'.peers ≡ torrents.cap s.peers
    same_limit : s'.max_peers_per_torrent ≡ s.max_peers_per_torrent

  AfterAnnounce : PeerStorage swarms torrents → NodeId → SocketAddr → ℕ → Type 0
  AfterAnnounce s h a now =
      (s' : PeerStorage swarms torrents) × (announce_peer swarms torrents s h a now ≡ s')
      × (c : swarms.Cache) × IsAfter s s' h a (peer_info a now) c

  -- The torrent has a swarm already.
  after_known :
      (s : PeerStorage swarms torrents) (h : NodeId) (a : SocketAddr) (now : ℕ) (p : torrents.Cache)
      (c : swarms.Cache)
      → IsPeerStorage swarms torrents s
      → torrents.get_mut s.peers h (λ swarm_lru. swarms.put swarm_lru a (peer_info a now)) ≡ some p
      → swarm_of swarms torrents s h ≡ some c
      → AfterAnnounce s h a now
  unfolding announce_peer AfterAnnounce
  after_known s h a now p c ok e there =
      let step : (j : NodeId)
          → (lookup id_eq j (torrents.iter p) ≡ (
              if id_eq h j
              then some (swarms.put c a (peer_info a now))
              else swarm_of swarms torrents s j))
            × (torrents.cap p ≡ torrents.cap s.peers) =
        λ j. torrents.get_mut-some s.peers p h j _ c e there in
      (
        record s { peers = p },
        rw (announce_peer, e) refl,
        c,
        record {
          cap = ap (swarm_cap swarms torrents s.max_peers_per_torrent) (sym there) ∙ ok.caps h;
          peers = λ x. ap (peer_in swarms torrents x) (sym there);
          size = ap swarm_size (sym there);
          own = λ j k. ground (arith, (step j).0, k);
          other = λ j k. inr (ground (arith, (step j).0, k));
          torrents_cap = (step h).1;
          same_limit = refl;
        },
      )

  -- The torrent has none yet.
  after_unknown :
      (s : PeerStorage swarms torrents) (h : NodeId) (a : SocketAddr) (now : ℕ)
      → IsPeerStorage swarms torrents s
      → torrents.get_mut s.peers h (λ swarm_lru. swarms.put swarm_lru a (peer_info a now)) ≡ none
      → swarm_of swarms torrents s h ≡ none
      → AfterAnnounce s h a now
  unfolding announce_peer AfterAnnounce
  after_unknown s h a now ok e absent =
      let fresh = swarms.new s.max_peers_per_torrent in
      let c : swarms.Cache = swarms.put fresh a (peer_info a now) in
      (
        record s { peers = torrents.put s.peers h c },
        rw (announce_peer, e) refl,
        fresh,
        record {
          cap = swarms.cap-new s.max_peers_per_torrent;
          peers = λ x.
              ap (lookup sockaddr_eq x) (swarms.iter-new s.max_peers_per_torrent)
              ∙ sym (ap (peer_in swarms torrents x) absent);
          size = ap length (swarms.iter-new s.max_peers_per_torrent) ∙ sym (ap swarm_size absent);
          own = λ j k. torrents.put-own s.peers h j c ok.torrents_room k;
          other = λ j k. elim (torrents.put-other s.peers h j c k) [
            | inl kept ↦ inr kept
            | inr gone ↦ inl gone
          ];
          torrents_cap = torrents.cap-put s.peers h c;
          same_limit = refl;
        },
      )

  after :
      (s : PeerStorage swarms torrents) (h : NodeId) (a : SocketAddr) (now : ℕ)
      → IsPeerStorage swarms torrents s
      → AfterAnnounce s h a now
  after s h a now ok =
      let asked =
        torrents.get_mut-none s.peers h (λ swarm_lru. swarms.put swarm_lru a (peer_info a now)) in
      elim (Option-cases (swarm_of swarms torrents s h)) [
        | inl there ↦ after_unknown s h a now ok (ground (arith, asked, there)) there
        | inr there ↦
            elim (Option-cases (
              torrents.get_mut s.peers h (λ swarm_lru. swarms.put swarm_lru a (peer_info a now)))) [
                | inl e ↦ absurd (ground (arith, asked, e, there.1))
                | inr e ↦ after_known s h a now e.0 there.0 ok e.1 there.1
              ]
      ]

  -- One entry of the map after the announcement.
  entry_after :
      (s s' : PeerStorage swarms torrents) (h j : NodeId) (a x : SocketAddr) (info : PeerInfo)
      (c : swarms.Cache)
      → IsPeerStorage swarms torrents s
      → IsAfter s s' h a info c
      → ((id_eq h j && sockaddr_eq a x) ≡ true) × (peer_at swarms torrents s' j x ≡ some info)
        ⊎ ((id_eq h j && sockaddr_eq a x) ≡ false)
          × ((peer_at swarms torrents s' j x ≡ none) × NoRoom s h j a
              ⊎ (peer_at swarms torrents s' j x ≡ peer_at swarms torrents s j x))
  entry_after s s' h j a x info c ok k = elim (Bool-cases (id_eq h j)) [
    | inr e ↦ inr (
      ground (arith, e),
      elim (k.other j e) [
        | inl (gone, absent, full) ↦
            inl (ap (peer_in swarms torrents x) gone, inr (e, absent, full))
        | inr kept ↦ inr (ap (peer_in swarms torrents x) kept)
      ],
    )
    | inl e ↦
        let there = ap (peer_in swarms torrents x) (k.own j e) in
        let same : h ≡ j = (id_eq_iff h j).0 e in
        elim (Bool-cases (sockaddr_eq a x)) [
          | inl f ↦ inl (
            ground (arith, e, f),
            there ∙ swarms.put-own c a x info (omega (arith, k.cap, ok.room)) f,
          )
          | inr f ↦ inr (
            ground (arith, f),
            elim (swarms.put-other c a x info f) [
              | inl kept ↦
                  inr (there ∙ kept ∙ k.peers x ∙ ap (λ i. peer_at swarms torrents s i x) same)
              | inr (gone, absent, full) ↦
                  inl (there ∙ gone, inl (e, sym (k.peers a) ∙ absent, sym k.size ∙ full ∙ k.cap))
            ],
          )
        ]
  ]

  after-IsPeerStorage :
      (s s' : PeerStorage swarms torrents) (h : NodeId) (a : SocketAddr) (now : ℕ)
      (c : swarms.Cache)
      → IsPeerStorage swarms torrents s
      → IsAfter s s' h a (peer_info a now) c
      → IsPeerStorage swarms torrents s'
  unfolding peer_info
  after-IsPeerStorage s s' h a now c ok k = record {
    room = omega (arith, k.same_limit, ok.room);
    torrents_room = omega (arith, k.torrents_cap, ok.torrents_room);
    torrents_few = omega (arith, k.torrents_cap, ok.torrents_few);
    caps = λ j. elim (Bool-cases (id_eq h j)) [
      | inl e ↦
          ap (swarm_cap swarms torrents s'.max_peers_per_torrent) (k.own j e)
          ∙ swarms.cap-put c a (peer_info a now)
          ∙ k.cap
          ∙ sym k.same_limit
      | inr e ↦ elim (k.other j e) [
        | inl (gone, absent, full) ↦ ap (swarm_cap swarms torrents s'.max_peers_per_torrent) gone
        | inr kept ↦ rw (k.same_limit, kept) (ok.caps j)
      ]
    ];
    held = λ j x. elim (entry_after s s' h j a x (peer_info a now) c ok k) [
      | inl (e, there) ↦ ap (holds x) there ∙ ground (arith, e)
      | inr (e, inl (gone, full)) ↦ ap (holds x) gone
      | inr (e, inr kept) ↦ ap (holds x) kept ∙ ok.held j x
    ];
  }

  -- After `announce_peer` the storage has the peer of that torrent at that address, with the time
  -- of the announcement. Every other peer is the one that was there, or was dropped to make room, and
  -- there was none: the announced peer was new in a full swarm of the same torrent, or its torrent was
  -- new and there were as many torrents as there may be. The invariant is kept.
  pub announce_peer_lem :
      (s : PeerStorage swarms torrents) (h j : NodeId) (a x : SocketAddr) (now : ℕ)
      → IsPeerStorage swarms torrents s
      → (s' : PeerStorage swarms torrents) × (announce_peer swarms torrents s h a now ≡ s')
        × IsPeerStorage swarms torrents s'
        × (((id_eq h j && sockaddr_eq a x) ≡ true)
              × (peer_at swarms torrents s' j x ≡ some (peer_info a now))
            ⊎ ((id_eq h j && sockaddr_eq a x) ≡ false)
              × ((peer_at swarms torrents s' j x ≡ none) × NoRoom s h j a
                  ⊎ (peer_at swarms torrents s' j x ≡ peer_at swarms torrents s j x)))
  unfolding AfterAnnounce
  announce_peer_lem s h j a x now ok =
      let k = after s h a now ok in
      (
        k.0,
        k.1,
        after-IsPeerStorage s k.0 h a now k.2 ok k.3,
        entry_after s k.0 h j a x (peer_info a now) k.2 ok k.3,
      )

  -- A new storage is empty, and keeps the invariant if it has room.
  pub new-IsPeerStorage :
      (max_torrents max_peers_per_torrent : ℕ)
      → 1 ≤ max_torrents
      → max_torrents < 2147483648
      → 1 ≤ max_peers_per_torrent
      → IsPeerStorage swarms torrents (new swarms torrents max_torrents max_peers_per_torrent)
  unfolding new
  new-IsPeerStorage max_torrents max_peers h few k =
      let absent : (j : NodeId)
          → lookup id_eq j (torrents.iter (torrents.new max_torrents)) ≡ none =
        λ j. ap (lookup id_eq j) (torrents.iter-new max_torrents) in
      record {
        room = k;
        torrents_room = omega (arith, torrents.cap-new max_torrents, h);
        torrents_few = omega (arith, torrents.cap-new max_torrents, few);
        caps = λ j. ap (swarm_cap swarms torrents max_peers) (absent j);
        held = λ j x. ap (λ c. holds x (peer_in swarms torrents x c)) (absent j);
      }
