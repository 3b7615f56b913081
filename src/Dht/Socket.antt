-- ===== src/Dht/Socket.antt =====
-- src/dht/socket.rs: `DHTSocket`. Its channels are lists of what was sent into them; the bytes of
-- a packet and the UDP socket are left out. A response channel is a number.
pub mod Delivery
use rustydht_lib.Prelude.{
  ℕ, ◌*◌, Bool, true, false, Option, none, some, List, [], ◌∷◌, ◌++◌, if◌then◌else◌,
}
use rustydht_lib.Common.Error.{
  RustyDhtError, Result, ok, err, packet_parse_error, packet_serialization_error, general_error,
  conntrack_error, socket_send_error, socket_recv_error, timeout_error, shutdown_error,
  builder_missing_field_error, builder_invalid_combo_error,
}
use rustydht_lib.Common.Id.{NodeId}
use rustydht_lib.Common.Net.{SocketAddr}
use rustydht_lib.Packets.Message.{Message, MessageType}
use rustydht_lib.Storage.OutboundRequestStorage.{
  RequestInfo, OutboundRequestStorage, add_request, take_matching_request_info, prune_older_than,
}
use rustydht_lib.Dht.Requests.{is_request}
use rustydht_lib.Dht.State.{from_secs}

pub record DhtSocket : Type 0 where
  pub recv_from : List (Message × SocketAddr)
  pub send_to : List (Message × SocketAddr)
  pub request_storage : OutboundRequestStorage
  -- What the response channels got.
  pub responses : List (ℕ × Message)

unfoldable pub new : DhtSocket
new = record {
  recv_from = [];
  send_to = [];
  request_storage = record { requests = [] };
  responses = [];
}

-- The receiving end of the general channel, and what is left in it; `none` if it is empty.
unfoldable pub receive : DhtSocket → Option ((Message × SocketAddr) × DhtSocket)
receive s = elim s.recv_from [
  | [] ↦ none
  | pair ∷ rest ↦ some (pair, record s { recv_from = rest })
]

-- Only a request is stored, with the channel that is returned.
unfoldable pub store_request : DhtSocket → Message → SocketAddr → Option NodeId → ℕ → ℕ → DhtSocket
store_request s to_send dest dest_id now channel = record s {
  request_storage = add_request s.request_storage (record {
    addr = dest;
    id = dest_id;
    packet = to_send;
    created_at = now;
    response_channel = some channel;
  });
}

abbrev pub enqueue : DhtSocket → Message → SocketAddr → DhtSocket
enqueue s msg dest = record s { send_to = s.send_to ++ (msg, dest) ∷ [] }

unfoldable pub send :
    DhtSocket → Message → SocketAddr → Option NodeId → ℕ → ℕ → Option ℕ × DhtSocket
unfolding store_request
send s to_send dest dest_id now channel =
    if is_request to_send.message_type
    then (some channel, enqueue (store_request s to_send dest dest_id now channel) to_send dest)
    else (none, enqueue s to_send dest)

abbrev pub forward : DhtSocket → Message → SocketAddr → DhtSocket
forward s msg sender = record s { recv_from = s.recv_from ++ (msg, sender) ∷ [] }

unfoldable pub deliver : DhtSocket → Option ℕ → Message → DhtSocket
deliver s none msg = s
deliver s (some channel) msg = record s { responses = s.responses ++ (channel, msg) ∷ [] }

-- A response that nobody waits for is dropped.
unfoldable pub pass_response : DhtSocket → Option RequestInfo → Message → SocketAddr → DhtSocket
unfolding deliver
pass_response s none msg sender = s
pass_response s (some request_info) msg sender =
    forward (deliver s request_info.response_channel msg) msg sender

unfoldable pub incoming_as : DhtSocket → Message → SocketAddr → MessageType → DhtSocket
unfolding pass_response
incoming_as s msg sender (MessageType.response res) =
    let taken = take_matching_request_info s.request_storage msg sender in
    pass_response (record s { request_storage = taken.1 }) taken.0 msg sender
incoming_as s msg sender (MessageType.request req) = forward s msg sender
incoming_as s msg sender (MessageType.error e) = forward s msg sender

-- A packet, as `Message::from_bytes` reads it.
unfoldable pub incoming_single : DhtSocket → Result Message → SocketAddr → Result DhtSocket
unfolding incoming_as
incoming_single s (err e) sender = err e
incoming_single s (ok msg) sender = ok (incoming_as s msg sender msg.message_type)

-- The errors that the loop of incoming packets goes on after (on systems other than Windows), and
-- that of outgoing ones.
unfoldable pub incoming_goes_on : RustyDhtError → Bool
incoming_goes_on packet_parse_error = true
incoming_goes_on conntrack_error = false
incoming_goes_on packet_serialization_error = false
incoming_goes_on general_error = false
incoming_goes_on socket_send_error = false
incoming_goes_on socket_recv_error = false
incoming_goes_on timeout_error = false
incoming_goes_on shutdown_error = false
incoming_goes_on (builder_missing_field_error field) = false
incoming_goes_on (builder_invalid_combo_error combo) = false

unfoldable pub outgoing_goes_on : RustyDhtError → Bool
outgoing_goes_on conntrack_error = true
outgoing_goes_on packet_parse_error = false
outgoing_goes_on packet_serialization_error = false
outgoing_goes_on general_error = false
outgoing_goes_on socket_send_error = false
outgoing_goes_on socket_recv_error = false
outgoing_goes_on timeout_error = false
outgoing_goes_on shutdown_error = false
outgoing_goes_on (builder_missing_field_error field) = false
outgoing_goes_on (builder_invalid_combo_error combo) = false

-- A round of `request_cleanup`.
unfoldable pub cleanup : DhtSocket → ℕ → DhtSocket
cleanup s now = record s { request_storage = prune_older_than s.request_storage now (from_secs 10) }
