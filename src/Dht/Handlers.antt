-- ===== src/Dht/Handlers.antt =====
-- src/dht/dht.rs: `accept_single_packet`. The packet that a handler sends, and to whom, is its
-- result: the sending is the last thing that it does.
use rustydht_lib.Prelude.{
  ℕ, Bool, true, false, ◌||◌, Option, none, some, List, [], ◌∷◌, if◌then◌else◌, take, length,
}
use rustydht_lib.Prelude.Maybe.{◌>>=◌}
use rustydht_lib.Common.Error.{Result, ok, err}
use rustydht_lib.Common.Id.{NodeId, bytes_eq}
use rustydht_lib.Common.Int.{ℤ, pos, negsuc}
use rustydht_lib.Common.Net.{SocketAddr, Node}
use rustydht_lib.Packets.Message.{
  Message, RequestSpecific, MessageType, PingRequestArguments, FindNodeRequestArguments,
  GetPeersRequestArguments, AnnouncePeerRequestArguments, SampleInfoHashesRequestArguments,
}
use rustydht_lib.Packets.Builder.{
  MessageBuilder, build, new_ping_response, new_find_node_response, new_get_peers_response,
  new_announce_peer_response, new_sample_infohashes_response,
}
use rustydht_lib.Packets.Builder.Setters
use rustydht_lib.Storage.NodeBucketStorage.{checked_sub}
use rustydht_lib.Storage.PeerStorage.{announce_peer, get_peers, get_info_hashes}
use rustydht_lib.Dht.State.{
  World, DhtState, from_secs, calculate_token, Clock, common_request_handling,
}

-- `send_to`: the packet, its receiver, and the id of the receiver.
pub record Sent : Type 0 where
  pub packet : Message
  pub addr : SocketAddr
  pub id : Option NodeId

pub record Handled (w : World) : Type 0 where
  pub state : DhtState w
  pub result : Result (Option Sent)

-- The fields that every reply has.
abbrev pub reply_to : MessageBuilder → NodeId → Message → SocketAddr → MessageBuilder
reply_to b our_id msg addr =
    Setters.requester_ip (Setters.transaction_id (Setters.sender_id b our_id) msg.transaction_id)
      addr

unfoldable pub set_port : SocketAddr → ℕ → SocketAddr
set_port addr port = record addr { port = port }

-- The address that is announced.
unfoldable pub announced : SocketAddr → Option Bool → ℕ → SocketAddr
unfolding set_port
announced addr (some true) port = addr
announced addr (some false) port = set_port addr port
announced addr none port = set_port addr port

-- `u64::try_from(i32)` panics below 0.
unfoldable pub to_secs : ℤ → Option ℕ
to_secs (pos n) = some n
to_secs (negsuc n) = none

module _ (w : World) where
  -- `.build()?`, and the sending.
  unfoldable pub send :
      DhtState w → SocketAddr → NodeId → Option (Result Message) → Option (Handled w)
  send s addr id none = none
  send s addr id (some (err e)) = some (record { state = s; result = err e })
  send s addr id (some (ok reply)) = some (record {
    state = s;
    result = ok (some (record { packet = reply; addr = addr; id = some id }));
  })

  unfoldable pub ping :
      DhtState w → Message → SocketAddr → PingRequestArguments → Option (Handled w)
  unfolding send
  ping s msg addr arguments =
      send s addr arguments.requester_id (build (reply_to new_ping_response s.our_id msg addr) [])

  -- Peers if there are some, else the nearest nodes.
  unfoldable pub values_reply : MessageBuilder → List SocketAddr → List Node → MessageBuilder
  values_reply b [] nearest = Setters.nodes b nearest
  values_reply b (p ∷ ps) nearest = Setters.peers b (p ∷ ps)

  unfoldable pub get_peers_reply :
      DhtState w
      → Message
      → SocketAddr
      → GetPeersRequestArguments
      → List SocketAddr
      → MessageBuilder
  unfolding values_reply
  get_peers_reply s msg addr arguments found =
      values_reply
        (Setters.token (reply_to new_get_peers_response s.our_id msg addr)
          (calculate_token w.checksum addr s.token_secret))
        (take s.settings.max_peers_response found)
        (w.nodes.get_nearest_nodes s.buckets arguments.info_hash (some arguments.requester_id))

  unfoldable pub give_peers :
      DhtState w → Clock → Message → SocketAddr → GetPeersRequestArguments → Option (Handled w)
  unfolding send get_peers_reply
  give_peers s clock msg addr arguments =
      let newer_than = checked_sub clock.handled (from_secs s.settings.get_peers_freshness_secs) in
      let got = get_peers w.swarms w.torrents s.peer_storage arguments.info_hash newer_than in
      send (record s { peer_storage = got.1 }) addr arguments.requester_id
        (build (get_peers_reply s msg addr arguments got.0) [])

  unfoldable pub find_node :
      DhtState w → Message → SocketAddr → FindNodeRequestArguments → Option (Handled w)
  unfolding send
  find_node s msg addr arguments = send s addr arguments.requester_id (
      build
        (Setters.nodes (reply_to new_find_node_response s.our_id msg addr)
          (w.nodes.get_nearest_nodes s.buckets arguments.target (some arguments.requester_id)))
        [])

  -- The token is one that was given out under the last secret, or the one before.
  unfoldable pub is_token_valid : DhtState w → SocketAddr → List ℕ → Bool
  is_token_valid s addr token =
      bytes_eq token (calculate_token w.checksum addr s.token_secret)
      || bytes_eq token (calculate_token w.checksum addr s.old_token_secret)

  unfoldable pub announce :
      DhtState w → Clock → Message → SocketAddr → AnnouncePeerRequestArguments → Option (Handled w)
  unfolding send is_token_valid
  announce s clock msg addr arguments =
      if is_token_valid s addr arguments.token
      then send
          (record s {
            peer_storage =
                announce_peer w.swarms w.torrents s.peer_storage arguments.info_hash
                  (announced addr arguments.implied_port arguments.port) clock.handled;
          })
          addr arguments.requester_id
          (build (reply_to new_announce_peer_response s.our_id msg addr) [])
      else some (record { state = s; result = ok none })

  unfoldable pub sample_infohashes :
      DhtState w
      → Clock
      → Message
      → SocketAddr
      → SampleInfoHashesRequestArguments
      → Option (Handled w)
  unfolding send
  sample_infohashes s clock msg addr arguments =
      let nearest =
        w.nodes.get_nearest_nodes s.buckets arguments.target (some arguments.requester_id) in
      let info_hashes = get_info_hashes w.swarms w.torrents s.peer_storage in
      do
        secs ← to_secs s.settings.min_sample_interval_secs
        send s addr arguments.requester_id (
            build
              (Setters.num_infohashes
                (Setters.samples
                  (Setters.nodes
                    (Setters.interval (reply_to new_sample_infohashes_response s.our_id msg addr)
                      (record { secs = secs; nanos = 0 }))
                    nearest)
                  (w.sample clock.draw info_hashes s.settings.max_sample_response))
                (length info_hashes))
              [])

  unfoldable pub handle_request :
      DhtState w → Clock → Message → SocketAddr → RequestSpecific → Option (Handled w)
  unfolding ping give_peers find_node announce sample_infohashes
  handle_request s clock msg addr (RequestSpecific.ping_request a) = ping s msg addr a
  handle_request s clock msg addr (RequestSpecific.get_peers_request a) =
      give_peers s clock msg addr a
  handle_request s clock msg addr (RequestSpecific.find_node_request a) = find_node s msg addr a
  handle_request s clock msg addr (RequestSpecific.announce_peer_request a) =
      announce s clock msg addr a
  handle_request s clock msg addr (RequestSpecific.sample_info_hashes_request a) =
      sample_infohashes s clock msg addr a

  -- `self.common_request_handling(addr, &msg)?`, and the handler.
  unfoldable pub after_common :
      DhtState w
      → Clock
      → Message
      → SocketAddr
      → RequestSpecific
      → Result (DhtState w)
      → Option (Handled w)
  unfolding handle_request
  after_common s clock msg addr req (err e) = some (record { state = s; result = err e })
  after_common s clock msg addr req (ok s') = handle_request s' clock msg addr req

  -- Responses are left to who waits for them, and errors to the log.
  unfoldable pub accept_as :
      DhtState w → Clock → Message → SocketAddr → MessageType → Option (Handled w)
  unfolding after_common
  accept_as s clock msg addr (MessageType.request req) = do
    common ← common_request_handling w s clock addr msg
    after_common s clock msg addr req common
  accept_as s clock msg addr (MessageType.response res) =
      some (record { state = s; result = ok none })
  accept_as s clock msg addr (MessageType.error e) = some (record { state = s; result = ok none })

  unfoldable pub accept_single_packet :
      DhtState w → Clock → Message → SocketAddr → Option (Handled w)
  unfolding accept_as
  accept_single_packet s clock msg addr = accept_as s clock msg addr msg.message_type
