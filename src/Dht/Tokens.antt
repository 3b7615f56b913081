-- ===== src/Dht/Tokens.antt =====
-- src/dht/dht.rs: the tokens that `get_peers` gives out and `announce_peer` asks for, and the peers
-- that are announced with them.
use rustydht_lib.Prelude.{
  ℕ, ◌<◌, ◌≡◌, refl, sym, ap, ◌∙◌, Bool, true, false, ◌&&◌, ◌||◌, Option, none, some, List, [], ◌∷◌,
  arith, take, inl, inr,
}
use rustydht_lib.Common.Error.{ok}
use rustydht_lib.Common.Id.{NodeId, IsId, bytes_eq, id_eq}
use rustydht_lib.Common.Id.Distance.{bytes_eq_iff, id_eq_iff}
use rustydht_lib.Common.Net.{Ipv4Addr, v4, SocketAddr, Node, sockaddr_eq, is_ipv4}
use rustydht_lib.Common.Net.Equality.{sockaddr_eq_refl}
use rustydht_lib.Packets.Message.{
  request_author, Message, RequestSpecific, ResponseSpecific, MessageType, GetPeersRequestArguments,
  AnnouncePeerRequestArguments,
}
use rustydht_lib.Packets.Builder
use rustydht_lib.Packets.Builder.Setters
use rustydht_lib.Storage.NodeBucketStorage.{checked_sub}
use rustydht_lib.Storage.PeerStorage.{peer_info, is_fresh, announce_peer, get_peers}
use rustydht_lib.Storage.PeerStorage.Swarms.{is_listed, is_served, get_peers_lem}
use rustydht_lib.Storage.PeerStorage.Announcing.{announce_peer_lem}
use rustydht_lib.Dht.State.{
  World, DhtState, from_secs, calculate_token, Clock, rotate_token_secrets,
}
use rustydht_lib.Dht.Handlers.{
  Sent, Handled, reply_to, announced, set_port, send, values_reply, get_peers_reply, give_peers,
  is_token_valid, announce, handle_request, accept_single_packet,
}
use rustydht_lib.Dht.Invariant.{IsDht}
use rustydht_lib.Dht.Accepting.{accept_runs}

-- The token in a response to `get_peers`.
abbrev response_token : ResponseSpecific → Option (List ℕ)
response_token (ResponseSpecific.get_peers_response a) = some a.token
response_token (ResponseSpecific.ping_response a) = none
response_token (ResponseSpecific.find_node_response a) = none
response_token (ResponseSpecific.sample_info_hashes_response a) = none

abbrev pub given_token : MessageType → Option (List ℕ)
given_token (MessageType.response r) = response_token r
given_token (MessageType.request r) = none
given_token (MessageType.error e) = none

module _ (w : World) where
  -- The address that asks, at any port.
  abbrev at_port : Ipv4Addr → ℕ → SocketAddr
  at_port ip port = record { ip = v4 ip; port = port }

  values_token :
      (s s' : DhtState w) (msg : Message) (addr : SocketAddr) (id : NodeId) (token : List ℕ)
      (found : List SocketAddr) (nearest : List Node)
      → (h : Handled w) × (sent : Sent) × (send w s' addr id (
            Builder.build
              (values_reply w
                (Setters.token (reply_to Builder.new_get_peers_response s.our_id msg addr) token)
                found
                nearest)
              [])
          ≡ some h)
        × (h.result ≡ ok (some sent))
        × (given_token sent.packet.message_type ≡ some token)
        × (h.state.token_secret ≡ s'.token_secret)
  unfolding send values_reply Builder.build Builder.build_as Builder.build_get_peers_response
      Builder.peers_or_nodes Builder.build_response_common Builder.required_or_error
      Builder.new_get_peers_response Builder.new
  values_token s s' msg addr id token [] nearest = (_, _, refl, refl, refl, refl)
  values_token s s' msg addr id token (p ∷ ps) nearest = (_, _, refl, refl, refl, refl)

  same_secret :
      (s : DhtState w) (ip : Ipv4Addr) (port port' : ℕ) (secret : List ℕ)
      → calculate_token w.checksum (at_port ip port) secret
        ≡ calculate_token w.checksum (at_port ip port') secret
  unfolding calculate_token
  same_secret s ip port port' secret = refl

  valid_now :
      (s : DhtState w) (addr : SocketAddr)
      → is_token_valid w s addr (calculate_token w.checksum addr s.token_secret) ≡ true
  unfolding is_token_valid
  valid_now s addr = ground (
    arith,
    (bytes_eq_iff (calculate_token w.checksum addr s.token_secret)
          (calculate_token w.checksum addr s.token_secret)).1
        refl,
  )

  valid_rotated :
      (s : DhtState w) (addr : SocketAddr) (new : List ℕ)
      → is_token_valid w
          (rotate_token_secrets w s new)
          addr
          (calculate_token w.checksum addr s.token_secret)
        ≡ true
  unfolding is_token_valid rotate_token_secrets
  valid_rotated s addr new = ground (
    arith,
    (bytes_eq_iff (calculate_token w.checksum addr s.token_secret)
          (calculate_token w.checksum addr s.token_secret)).1
        refl,
  )

  -- The token that a node sends in answer to `get_peers` is valid for the same IP address from
  -- every port: at once, and after the secrets were rotated. After a second rotation it is valid
  -- only where one of the two new secrets gives that token too.
  pub token_lem :
      (s : DhtState w) (clock : Clock) (msg : Message) (ip : Ipv4Addr) (port port' : ℕ)
      (a : GetPeersRequestArguments) (new newer : List ℕ)
      → IsDht w s
      → msg.message_type ≡ MessageType.request (RequestSpecific.get_peers_request a)
      → IsId a.requester_id
      → (h : Handled w) × (sent : Sent) × (token : List ℕ) × (accept_single_packet w s clock msg
            (record { ip = v4 ip; port = port })
          ≡ some h)
        × (h.result ≡ ok (some sent))
        × (given_token sent.packet.message_type ≡ some token)
        × (is_token_valid w h.state (record { ip = v4 ip; port = port' }) token ≡ true)
        × (is_token_valid w
              (rotate_token_secrets w h.state new)
              (record { ip = v4 ip; port = port' })
              token
            ≡ true)
        × (is_token_valid w
              (rotate_token_secrets w (rotate_token_secrets w h.state new) newer)
              (record { ip = v4 ip; port = port' })
              token
            ≡ (bytes_eq token
                  (calculate_token w.checksum (record { ip = v4 ip; port = port' }) newer)
                || bytes_eq token
                    (calculate_token w.checksum (record { ip = v4 ip; port = port' }) new)))
  unfolding handle_request give_peers get_peers_reply is_token_valid rotate_token_secrets
      request_author
  token_lem s clock msg ip port port' a new newer h is author =
      let p = accept_runs w s clock msg ip port (RequestSpecific.get_peers_request a) h is author in
      let s' : DhtState w = p.0 in
      let got =
        get_peers w.swarms w.torrents s'.peer_storage a.info_hash
          (checked_sub clock.handled (from_secs s'.settings.get_peers_freshness_secs)) in
      let v =
        values_token s' (record s' { peer_storage = got.1 }) msg (at_port ip port) a.requester_id
          (calculate_token w.checksum (at_port ip port) s'.token_secret)
          (take s'.settings.max_peers_response got.0)
          (w.nodes.get_nearest_nodes s'.buckets a.info_hash (some a.requester_id)) in
      let token = calculate_token w.checksum (at_port ip port') v.0.state.token_secret in
      let same : calculate_token w.checksum (at_port ip port) s'.token_secret ≡ token =
        same_secret s' ip port port' s'.token_secret
        ∙ ap (calculate_token w.checksum (at_port ip port')) (sym v.5) in
      (
        v.0,
        v.1,
        token,
        p.1 ∙ v.2,
        v.3,
        v.4 ∙ ap some same,
        valid_now v.0.state (at_port ip port'),
        valid_rotated v.0.state (at_port ip port') new,
        refl,
      )

  same_validity :
      (s s' : DhtState w) (addr : SocketAddr) (token : List ℕ)
      → s'.token_secret ≡ s.token_secret
      → s'.old_token_secret ≡ s.old_token_secret
      → is_token_valid w s' addr token ≡ is_token_valid w s addr token
  unfolding is_token_valid
  same_validity s s' addr token e f = rw (e, f) refl

  announce_state :
      (s : DhtState w) (clock : Clock) (msg : Message) (addr : SocketAddr)
      (a : AnnouncePeerRequestArguments)
      → is_token_valid w s addr a.token ≡ true
      → (h : Handled w) × (announce w s clock msg addr a ≡ some h)
        × (h.state.peer_storage
            ≡ announce_peer w.swarms w.torrents s.peer_storage a.info_hash
                (announced addr a.implied_port a.port)
                clock.handled)
  unfolding announce send Builder.build Builder.build_as Builder.build_announce_peer_response
      Builder.build_ping_response Builder.build_response_common Builder.required_or_error
      Builder.new_announce_peer_response Builder.new
  announce_state s clock msg addr a valid = rw (announce, valid) (_, refl, refl)

  announced-ipv4 :
      (addr : SocketAddr) (implied_port : Option Bool) (port : ℕ)
      → is_ipv4 addr.ip ≡ true
      → is_ipv4 (announced addr implied_port port).ip ≡ true
  unfolding announced set_port
  announced-ipv4 addr none port h = h
  announced-ipv4 addr (some true) port h = h
  announced-ipv4 addr (some false) port h = h

  -- What was announced is listed.
  stored_listed :
      (s : DhtState w) (hash : NodeId) (x : SocketAddr) (now newer_than : ℕ)
      → IsDht w s
      → is_ipv4 x.ip ≡ true
      → newer_than < now
      → is_listed x
          (get_peers w.swarms w.torrents
            (announce_peer w.swarms w.torrents s.peer_storage hash x now)
            hash
            (some newer_than)).0
        ≡ true
  unfolding is_fresh peer_info
  stored_listed s hash x now newer_than h v fresh =
      let stored = announce_peer_lem w.swarms w.torrents s.peer_storage hash hash x x now h.peers in
      let listed =
        (get_peers_lem w.swarms w.torrents stored.0 hash hash (some newer_than) x stored.2).0 in
      let own : (id_eq hash hash && sockaddr_eq x x) ≡ true =
        ground (arith, (id_eq_iff hash hash).1 refl, sockaddr_eq_refl x) in
      rw stored.1 (
        listed ∙ elim stored.3 [
          | inl (e, there) ↦ ap (is_served (some newer_than) x) there ∙ ground (arith, v, fresh)
          | inr (e, other) ↦ absurd (ground (arith, own, e))
        ])

  -- An announcement with a valid token, of an IPv4 address, and then a look at the peers: the
  -- address is listed among the torrent's peers, unless only those announced after it are asked for.
  pub announced_lem :
      (s : DhtState w) (clock : Clock) (msg : Message) (ip : Ipv4Addr) (port newer_than : ℕ)
      (a : AnnouncePeerRequestArguments)
      → IsDht w s
      → msg.message_type ≡ MessageType.request (RequestSpecific.announce_peer_request a)
      → IsId a.requester_id
      → is_token_valid w s (record { ip = v4 ip; port = port }) a.token ≡ true
      → newer_than < clock.handled
      → (h : Handled w) × (accept_single_packet w s clock msg (record { ip = v4 ip; port = port })
          ≡ some h)
        × (is_listed
              (announced (record { ip = v4 ip; port = port }) a.implied_port a.port)
              (get_peers w.swarms w.torrents h.state.peer_storage a.info_hash (some newer_than)).0
            ≡ true)
  unfolding handle_request is_token_valid request_author is_ipv4
  announced_lem s clock msg ip port newer_than a h is author valid fresh =
      let addr : SocketAddr = at_port ip port in
      let x : SocketAddr = announced addr a.implied_port a.port in
      let p =
        accept_runs w s clock msg ip port (RequestSpecific.announce_peer_request a) h is author in
      let still : is_token_valid w p.0 addr a.token ≡ true =
        same_validity s p.0 addr a.token p.5 p.6 ∙ valid in
      let v = announce_state p.0 clock msg addr a still in
      let served : is_listed x
            (get_peers w.swarms w.torrents
              (announce_peer w.swarms w.torrents p.0.peer_storage a.info_hash x clock.handled)
              a.info_hash (some newer_than)).0
          ≡ true =
        stored_listed p.0 a.info_hash x clock.handled newer_than p.2
          (announced-ipv4 addr a.implied_port a.port refl) fresh in
      (
        v.0,
        p.1 ∙ v.1,
        ap (λ ps. is_listed x (get_peers w.swarms w.torrents ps a.info_hash (some newer_than)).0)
              v.2
            ∙ served,
      )
