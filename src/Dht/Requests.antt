-- ===== src/Dht/Requests.antt =====
-- src/dht/dht.rs: the requests that a node sends, and `common_send_and_handle_response` from the
-- response on. What tokio and the socket do in between is left out. `none` is a panic.
use rustydht_lib.Prelude.{
  ℕ, suc, Bool, true, false, Option, none, some, List, [], ◌∷◌, if◌then◌else◌,
}
use rustydht_lib.Prelude.Maybe.{◌>>=◌}
use rustydht_lib.Common.Error.{Result, ok, err, general_error}
use rustydht_lib.Common.Id.{NodeId}
use rustydht_lib.Common.Magic.{is_valid_for_ip}
use rustydht_lib.Common.Net.{Ipv4Addr, IpAddr, v4, v6, SocketAddr, Node}
use rustydht_lib.Packets.Message.{Message, MessageType, ResponseSpecific, get_author_id}
use rustydht_lib.Packets.Builder.{build, new_ping_request, new_find_node_request}
use rustydht_lib.Packets.Builder.Setters
use rustydht_lib.Dht.State.{World, DhtState, Clock, add_node}

-- `matches!(msg.message_type, MessageType::Request(_))`
unfoldable pub is_request : MessageType → Bool
is_request (MessageType.request r) = true
is_request (MessageType.response r) = false
is_request (MessageType.error e) = false

module _ (w : World) where
  -- The requests of `ping_internal` and of `find_node_internal`, with the bytes of a random
  -- transaction id.
  unfoldable pub ping_packet : DhtState w → List ℕ → Option (Result Message)
  ping_packet s random =
      build (Setters.read_only (Setters.sender_id new_ping_request s.our_id) s.settings.read_only)
        random

  unfoldable pub find_node_packet : DhtState w → NodeId → List ℕ → Option (Result Message)
  find_node_packet s target random =
      build
        (Setters.target
          (Setters.read_only (Setters.sender_id new_find_node_request s.our_id)
            s.settings.read_only)
          target)
        random

  -- A vote needs two IPv4 addresses: the voter's, and ours in its claim.
  unfoldable pub vote_claim : DhtState w → Ipv4Addr → IpAddr → Option (DhtState w)
  vote_claim s their_ip (v6 os) = some s
  vote_claim s their_ip (v4 our_ip) = do
    source ← w.source.add_vote s.ip4_source their_ip our_ip
    some (record s { ip4_source = source })

  unfoldable pub vote_for : DhtState w → IpAddr → Option SocketAddr → Option (DhtState w)
  unfolding vote_claim
  vote_for s (v6 os) claim = some s
  vote_for s (v4 their_ip) none = some s
  vote_for s (v4 their_ip) (some claim) = vote_claim s their_ip claim.ip

  unfoldable pub ip4_vote_helper : DhtState w → SocketAddr → Message → Option (DhtState w)
  unfolding vote_for
  ip4_vote_helper s addr msg = vote_for s addr.ip msg.requester_ip

  -- The nodes of a `find_node` response join the table as seen; `clocks i` is for the i-th.
  unfoldable pub see_nodes : DhtState w → (ℕ → Clock) → ℕ → List Node → Option (DhtState w)
  unfolding add_node
  see_nodes s clocks i [] = some s
  see_nodes s clocks i (node ∷ nodes) = do
    valid ← is_valid_for_ip w.checksum node.id node.address.ip
    s' ← if valid then add_node w s node false (clocks i) else some s
    see_nodes s' clocks (suc i) nodes

  unfoldable pub see_response : DhtState w → (ℕ → Clock) → ResponseSpecific → Option (DhtState w)
  unfolding see_nodes
  see_response s clocks (ResponseSpecific.find_node_response args) = see_nodes s clocks 1 args.nodes
  see_response s clocks (ResponseSpecific.ping_response args) = some s
  see_response s clocks (ResponseSpecific.get_peers_response args) = some s
  see_response s clocks (ResponseSpecific.sample_info_hashes_response args) = some s

  -- A responder votes, and joins the table as verified, if its id is valid for its address.
  unfoldable pub verify_responder :
      DhtState w → Clock → SocketAddr → Message → NodeId → Option (DhtState w)
  unfolding add_node ip4_vote_helper
  verify_responder s clock target reply their_id = do
    id_is_valid ← is_valid_for_ip w.checksum their_id target.ip
    if id_is_valid
        then (do
          s' ← ip4_vote_helper s target reply
          add_node w s' (record { id = their_id; address = target }) true clock)
        else some s

  unfoldable pub handle_reply_as :
      DhtState w → (ℕ → Clock) → SocketAddr → Message → MessageType → Option (Result (DhtState w))
  unfolding see_response verify_responder
  handle_reply_as s clocks target reply (MessageType.response response_variant) = do
    their_id ← get_author_id reply
    s' ← verify_responder s (clocks 0) target reply their_id
    s'' ← see_response s' clocks response_variant
    some (ok s'')
  handle_reply_as s clocks target reply (MessageType.request req) = some (err general_error)
  handle_reply_as s clocks target reply (MessageType.error e) = some (err general_error)

  unfoldable pub handle_reply :
      DhtState w → (ℕ → Clock) → SocketAddr → Message → Option (Result (DhtState w))
  unfolding handle_reply_as
  handle_reply s clocks target reply = handle_reply_as s clocks target reply reply.message_type
