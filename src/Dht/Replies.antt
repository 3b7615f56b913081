-- ===== src/Dht/Replies.antt =====
-- src/dht/dht.rs: what `accept_single_packet` answers to each request.
use mathlib.Core.Path.{subst}
use rustydht_lib.Prelude.{
  ℕ, ◌<◌, ◌≡◌, refl, sym, inl, inr, true, Option, some, List, [], ◌∷◌, arith, map, Option-cases,
  length, take, ltb,
}
use rustydht_lib.Common.Error.{ok}
use rustydht_lib.Common.Id.{NodeId}
use rustydht_lib.Common.Net.{SocketAddr, Node}
use rustydht_lib.Packets.Message.{
  Message, RequestSpecific, MessageType, request_author, get_author_id, PingRequestArguments,
  FindNodeRequestArguments, GetPeersRequestArguments, AnnouncePeerRequestArguments,
  SampleInfoHashesRequestArguments, response_matches_request, response_author,
}
use rustydht_lib.Packets.Builder
use rustydht_lib.Packets.Builder.Setters
use rustydht_lib.Storage.NodeBucketStorage.{checked_sub}
use rustydht_lib.Storage.OutboundRequestStorage.{kind_matches}
use rustydht_lib.Storage.OutboundRequestStorage.Matching.{is_answer}
use rustydht_lib.Storage.PeerStorage.{get_peers, get_info_hashes}
use rustydht_lib.Storage.PeerStorage.Swarms.{IsPeerStorage, get_peers_lem}
use rustydht_lib.Storage.PeerStorage.Announcing.{announce_peer_lem}
use rustydht_lib.Dht.State.{World, DhtState, from_secs, Clock}
use rustydht_lib.Dht.Handlers.{
  Sent, Handled, announced, to_secs, send, ping, values_reply, get_peers_reply, give_peers,
  find_node, is_token_valid, announce, sample_infohashes, reply_to,
}
use rustydht_lib.Dht.Invariant.{IsDht}

length-map {ℓ κ} :
    {A : Type ℓ} {B : Type κ} (f : A → B) (xs : List A) → length (map f xs) ≡ length xs
length-map f [] = refl
length-map f (x ∷ xs) = omega (arith, length-map f xs)

-- A packet that answers a request: it goes back to the sender, with the transaction id of the
-- request and the sender's address, by us, and is of the kind that the request asks for.
pub record IsReply (our_id : NodeId) (msg : Message) (addr : SocketAddr) (req : RequestSpecific)
    (sent : Sent) : Type 0 where
  pub receiver : sent.addr ≡ addr
  pub receiver_id : sent.id ≡ some (request_author req)
  pub transaction : sent.packet.transaction_id ≡ msg.transaction_id
  pub author : get_author_id sent.packet ≡ some our_id
  pub requester : sent.packet.requester_ip ≡ some addr
  pub kind : is_answer sent.packet.message_type (MessageType.request req) ≡ true

module _ (w : World) where
  -- A handler that sends a reply.
  abbrev pub Answers :
      DhtState w → Message → SocketAddr → RequestSpecific → Option (Handled w) → Type 0
  Answers s msg addr req handled =
      (h : Handled w) × (sent : Sent) × (handled ≡ some h)
      × (h.result ≡ ok (some sent))
      × IsReply s.our_id msg addr req sent
      × IsDht w h.state
      × (h.state.our_id ≡ s.our_id)

  pub ping-Answers :
      (s : DhtState w) (msg : Message) (addr : SocketAddr) (a : PingRequestArguments)
      → IsDht w s
      → Answers s msg addr (RequestSpecific.ping_request a) (ping w s msg addr a)
  unfolding ping send Builder.build Builder.build_as Builder.build_ping_response
      Builder.build_response_common Builder.required_or_error Builder.new_ping_response Builder.new
      get_author_id request_author response_author kind_matches response_matches_request
  ping-Answers s msg addr a h = (
    _,
    _,
    refl,
    refl,
    record {
      receiver = refl;
      receiver_id = refl;
      transaction = refl;
      author = refl;
      requester = refl;
      kind = refl;
    },
    h,
    refl,
  )

  pub find_node-Answers :
      (s : DhtState w) (msg : Message) (addr : SocketAddr) (a : FindNodeRequestArguments)
      → IsDht w s
      → Answers s msg addr (RequestSpecific.find_node_request a) (find_node w s msg addr a)
  unfolding find_node send Builder.build Builder.build_as Builder.build_find_node_response
      Builder.build_response_common Builder.required_or_error Builder.new_find_node_response
      Builder.new get_author_id request_author response_author kind_matches response_matches_request
  find_node-Answers s msg addr a h = (
    _,
    _,
    refl,
    refl,
    record {
      receiver = refl;
      receiver_id = refl;
      transaction = refl;
      author = refl;
      requester = refl;
      kind = refl;
    },
    h,
    refl,
  )

  -- With peers or with nodes, the reply is complete.
  values-Answers :
      (s s' : DhtState w) (msg : Message) (addr : SocketAddr) (a : GetPeersRequestArguments)
      (token : List ℕ) (found : List SocketAddr) (nearest : List Node)
      → IsDht w s'
      → s'.our_id ≡ s.our_id
      → Answers s msg addr (RequestSpecific.get_peers_request a) (
          send w s' addr a.requester_id (
            Builder.build
              (values_reply w
                (Setters.token (reply_to Builder.new_get_peers_response s.our_id msg addr) token)
                found
                nearest)
              []))
  unfolding send values_reply Builder.build Builder.build_as Builder.build_get_peers_response
      Builder.peers_or_nodes Builder.build_response_common Builder.required_or_error
      Builder.new_get_peers_response Builder.new get_author_id request_author response_author
      kind_matches response_matches_request
  values-Answers s s' msg addr a token [] nearest h same = (
    _,
    _,
    refl,
    refl,
    record {
      receiver = refl;
      receiver_id = refl;
      transaction = refl;
      author = refl;
      requester = refl;
      kind = refl;
    },
    h,
    same,
  )
  values-Answers s s' msg addr a token (p ∷ ps) nearest h same = (
    _,
    _,
    refl,
    refl,
    record {
      receiver = refl;
      receiver_id = refl;
      transaction = refl;
      author = refl;
      requester = refl;
      kind = refl;
    },
    h,
    same,
  )

  pub give_peers-Answers :
      (s : DhtState w) (clock : Clock) (msg : Message) (addr : SocketAddr)
      (a : GetPeersRequestArguments)
      → IsDht w s
      → Answers s msg addr (RequestSpecific.get_peers_request a) (give_peers w s clock msg addr a)
  unfolding give_peers get_peers_reply
  give_peers-Answers s clock msg addr a h =
      let newer_than = checked_sub clock.handled (from_secs s.settings.get_peers_freshness_secs) in
      let got = get_peers w.swarms w.torrents s.peer_storage a.info_hash newer_than in
      values-Answers s (record s { peer_storage = got.1 }) msg addr a _
        (take s.settings.max_peers_response got.0) _
        (record {
          is_id = h.is_id;
          table = h.table;
          source = h.source;
          peers =
              (get_peers_lem w.swarms w.torrents s.peer_storage a.info_hash a.info_hash newer_than
                addr h.peers).2;
          interval = h.interval;
        })
        refl

  -- A valid token: the reply, and the announcement.
  pub announce-Answers :
      (s : DhtState w) (clock : Clock) (msg : Message) (addr : SocketAddr)
      (a : AnnouncePeerRequestArguments)
      → IsDht w s
      → is_token_valid w s addr a.token ≡ true
      → Answers s msg addr (RequestSpecific.announce_peer_request a) (announce w s clock msg addr a)
  unfolding announce send Builder.build Builder.build_as Builder.build_announce_peer_response
      Builder.build_ping_response Builder.build_response_common Builder.required_or_error
      Builder.new_announce_peer_response Builder.new get_author_id request_author response_author
      kind_matches response_matches_request
  announce-Answers s clock msg addr a h valid =
      let stored =
        announce_peer_lem w.swarms w.torrents s.peer_storage a.info_hash a.info_hash
          (announced addr a.implied_port a.port) addr clock.handled h.peers in
      rw (announce, valid)
        (
          _,
          _,
          refl,
          refl,
          record {
            receiver = refl;
            receiver_id = refl;
            transaction = refl;
            author = refl;
            requester = refl;
            kind = refl;
          },
          record {
            is_id = h.is_id;
            table = h.table;
            source = h.source;
            peers = subst (IsPeerStorage w.swarms w.torrents) (sym stored.1) stored.2;
            interval = h.interval;
          },
          refl,
        )

  hashes_few :
      (s : DhtState w)
      → IsDht w s
      → length (get_info_hashes w.swarms w.torrents s.peer_storage) < 2147483648
  unfolding get_info_hashes
  hashes_few s h = omega (
    arith,
    length-map (λ kv. kv.0) (w.torrents.iter s.peer_storage.peers),
    w.torrents.iter-cap s.peer_storage.peers,
    h.peers.torrents_few,
  )

  pub sample-Answers :
      (s : DhtState w) (clock : Clock) (msg : Message) (addr : SocketAddr)
      (a : SampleInfoHashesRequestArguments)
      → IsDht w s
      → Answers s msg addr
          (RequestSpecific.sample_info_hashes_request a)
          (sample_infohashes w s clock msg addr a)
  unfolding sample_infohashes send Builder.build Builder.build_as
      Builder.build_sample_infohashes_response Builder.sample_parts Builder.required_or_error
      Builder.new_sample_infohashes_response Builder.new get_author_id request_author
      response_author kind_matches response_matches_request
  sample-Answers s clock msg addr a h =
      elim (Option-cases (to_secs s.settings.min_sample_interval_secs)) [
        | inl e ↦ absurd (ground (arith, e, h.interval))
        | inr (secs, e) ↦
            let few : ltb (length (get_info_hashes w.swarms w.torrents s.peer_storage)) 2147483648
                ≡ true =
              ground (arith, hashes_few s h) in
            rw (sample_infohashes, e, few)
              (
                _,
                _,
                refl,
                refl,
                record {
                  receiver = refl;
                  receiver_id = refl;
                  transaction = refl;
                  author = refl;
                  requester = refl;
                  kind = refl;
                },
                h,
                refl,
              )
      ]
