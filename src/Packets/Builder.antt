-- ===== src/Packets/Builder.antt =====
-- src/packets/builder.rs: `MessageBuilder` and `build`. The two bytes of a random transaction id
-- are an argument. `none` is a panic.
pub mod Setters
pub mod Complete
use Prim.Native.String.{String}
use rustydht_lib.Prelude.{
  ℕ, Bool, true, false, ◌&&◌, not, Option, none, some, is_none, List, [], ◌∷◌, ltb, if◌then◌else◌,
}
use rustydht_lib.Common.Error.{
  RustyDhtError, Result, ok, err, ◌>>=◌, map_ok, builder_missing_field_error,
  builder_invalid_combo_error,
}
use rustydht_lib.Common.Id.{NodeId}
use rustydht_lib.Common.Int.{ℤ, pos}
use rustydht_lib.Common.Net.{Node, SocketAddr}
use rustydht_lib.Packets.Message.{
  Duration, GetPeersResponseValues, RequestSpecific, ResponseSpecific, MessageType, Message,
}

pub data BuilderMessageType : Type 0 where
  ping_request ping_response find_node_request find_node_response : BuilderMessageType
  get_peers_request get_peers_response announce_peer_request : BuilderMessageType
  announce_peer_response sample_info_hashes_request : BuilderMessageType
  sample_info_hashes_response error : BuilderMessageType

pub record MessageBuilder : Type 0 where
  pub message_type : BuilderMessageType
  pub transaction_id : Option (List ℕ)
  pub version : Option (List ℕ)
  pub requester_ip : Option SocketAddr
  pub read_only : Option Bool
  pub sender_id : Option NodeId
  pub target : Option NodeId
  pub port : Option ℕ
  pub implied_port : Option Bool
  pub token : Option (List ℕ)
  pub nodes : Option (List Node)
  pub peers : Option (List SocketAddr)
  pub interval : Option Duration
  pub samples : Option (List NodeId)
  pub num_infohashes : Option ℕ
  pub code : Option ℤ
  pub description : Option (List ℕ)

unfoldable pub new : BuilderMessageType → MessageBuilder
new message_type = record {
  message_type = message_type;
  transaction_id = none;
  version = none;
  requester_ip = none;
  read_only = none;
  sender_id = none;
  target = none;
  port = none;
  implied_port = none;
  token = none;
  nodes = none;
  peers = none;
  interval = none;
  samples = none;
  num_infohashes = none;
  code = none;
  description = none;
}

unfoldable pub new_ping_request : MessageBuilder
new_ping_request = new ping_request

unfoldable pub new_ping_response : MessageBuilder
new_ping_response = new ping_response

unfoldable pub new_find_node_request : MessageBuilder
new_find_node_request = new find_node_request

unfoldable pub new_find_node_response : MessageBuilder
new_find_node_response = new find_node_response

unfoldable pub new_get_peers_request : MessageBuilder
new_get_peers_request = new get_peers_request

unfoldable pub new_get_peers_response : MessageBuilder
new_get_peers_response = new get_peers_response

unfoldable pub new_announce_peer_request : MessageBuilder
new_announce_peer_request = new announce_peer_request

unfoldable pub new_announce_peer_response : MessageBuilder
new_announce_peer_response = new announce_peer_response

unfoldable pub new_sample_infohashes_request : MessageBuilder
new_sample_infohashes_request = new sample_info_hashes_request

unfoldable pub new_sample_infohashes_response : MessageBuilder
new_sample_infohashes_response = new sample_info_hashes_response

unfoldable pub new_error : MessageBuilder
new_error = new error

-- `required_or_error!`
unfoldable pub required_or_error {ℓ} : {A : Type ℓ} → Option A → String → Result A
required_or_error none name = err (builder_missing_field_error name)
required_or_error (some a) name = ok a

abbrev pub or_else {ℓ} : {A : Type ℓ} → Option A → A → A
or_else none d = d
or_else (some a) d = a

unfoldable pub build_request_common :
    MessageBuilder → List ℕ → Result RequestSpecific → Result Message
build_request_common b random x = do
  r ← x
  ok (record {
    transaction_id = or_else b.transaction_id random;
    version = b.version;
    requester_ip = none;
    message_type = MessageType.request r;
    read_only = b.read_only;
  })

unfoldable pub build_response_common : MessageBuilder → Result ResponseSpecific → Result Message
build_response_common b x = do
  transaction_id ← required_or_error b.transaction_id "transaction_id"
  r ← x
  ok (record {
    transaction_id = transaction_id;
    version = b.version;
    requester_ip = b.requester_ip;
    message_type = MessageType.response r;
    read_only = none;
  })

unfoldable pub build_ping_request : MessageBuilder → List ℕ → Result Message
build_ping_request b random = build_request_common b random (do
  requester_id ← required_or_error b.sender_id "sender_id"
  ok (RequestSpecific.ping_request (record { requester_id = requester_id })))

unfoldable pub build_ping_response : MessageBuilder → Result Message
build_ping_response b = build_response_common b (do
  responder_id ← required_or_error b.sender_id "sender_id"
  ok (ResponseSpecific.ping_response (record { responder_id = responder_id })))

unfoldable pub build_find_node_request : MessageBuilder → List ℕ → Result Message
build_find_node_request b random = build_request_common b random (do
  requester_id ← required_or_error b.sender_id "sender_id"
  target ← required_or_error b.target "target"
  ok (RequestSpecific.find_node_request (record { target = target; requester_id = requester_id })))

unfoldable pub build_find_node_response : MessageBuilder → Result Message
build_find_node_response b = build_response_common b (do
  responder_id ← required_or_error b.sender_id "sender_id"
  nodes ← required_or_error b.nodes "nodes"
  ok (ResponseSpecific.find_node_response (record { responder_id = responder_id; nodes = nodes })))

unfoldable pub build_get_peers_request : MessageBuilder → List ℕ → Result Message
build_get_peers_request b random = build_request_common b random (do
  requester_id ← required_or_error b.sender_id "sender_id"
  info_hash ← required_or_error b.target "target"
  ok (
      RequestSpecific.get_peers_request
        (record { info_hash = info_hash; requester_id = requester_id })))

unfoldable pub peers_or_nodes :
    Option (List SocketAddr) → Option (List Node) → Result GetPeersResponseValues
peers_or_nodes (some ps) ns = ok (GetPeersResponseValues.peers ps)
peers_or_nodes none (some ns) = ok (GetPeersResponseValues.nodes ns)
peers_or_nodes none none = err (builder_missing_field_error "peers or nodes")

unfoldable pub build_get_peers_response : MessageBuilder → Result Message
build_get_peers_response b = build_response_common b (do
  responder_id ← required_or_error b.sender_id "sender_id"
  token ← required_or_error b.token "token"
  values ← peers_or_nodes b.peers b.nodes
  ok (
      ResponseSpecific.get_peers_response
        (record { responder_id = responder_id; token = token; values = values })))

-- The field `implied_port` of a request to `announce_peer`.
unfoldable pub implied_port_of : Option Bool → Option ℕ → Result (Option Bool)
implied_port_of (some implied_port) port =
    if not implied_port && is_none port
    then err (builder_invalid_combo_error "implied_port must be true or port must be specified")
    else ok (some implied_port)
implied_port_of none (some p) = ok none
implied_port_of none none = ok (some true)

unfoldable pub build_announce_peer_request : MessageBuilder → List ℕ → Result Message
build_announce_peer_request b random = build_request_common b random (do
  requester_id ← required_or_error b.sender_id "sender_id"
  info_hash ← required_or_error b.target "target"
  token ← required_or_error b.token "token"
  implied_port ← implied_port_of b.implied_port b.port
  ok (
      RequestSpecific.announce_peer_request (record {
        requester_id = requester_id;
        info_hash = info_hash;
        port = or_else b.port 0;
        implied_port = implied_port;
        token = token;
      })))

unfoldable pub build_announce_peer_response : MessageBuilder → Result Message
unfolding build_ping_response
build_announce_peer_response b = build_ping_response b

unfoldable pub build_sample_infohashes_request : MessageBuilder → List ℕ → Result Message
build_sample_infohashes_request b random = build_request_common b random (do
  requester_id ← required_or_error b.sender_id "sender_id"
  target ← required_or_error b.target "target"
  ok (
      RequestSpecific.sample_info_hashes_request
        (record { target = target; requester_id = requester_id })))

-- What the response to `sample_infohashes` reads before it converts the number.
pub record SampleParts : Type 0 where
  pub transaction_id : List ℕ
  pub responder_id : NodeId
  pub interval : Duration
  pub nodes : List Node
  pub num : ℕ

unfoldable pub sample_parts : MessageBuilder → Result SampleParts
sample_parts b = do
  transaction_id ← required_or_error b.transaction_id "transaction_id"
  responder_id ← required_or_error b.sender_id "sender_id"
  interval ← required_or_error b.interval "interval"
  nodes ← required_or_error b.nodes "nodes"
  num ← required_or_error b.num_infohashes "num_infohashes"
  ok (record {
    transaction_id = transaction_id;
    responder_id = responder_id;
    interval = interval;
    nodes = nodes;
    num = num;
  })

-- `num.try_into().unwrap()` panics at a number that is no `i32`, before `samples` is looked at.
unfoldable pub build_sample_infohashes_response : MessageBuilder → Option (Result Message)
build_sample_infohashes_response b = elim (sample_parts b) [
  | err e ↦ some (err e)
  | ok parts ↦
      if ltb parts.num 2147483648
      then some (do
        samples ← required_or_error b.samples "samples"
        ok (record {
          transaction_id = parts.transaction_id;
          version = b.version;
          requester_ip = b.requester_ip;
          message_type = MessageType.response (
              ResponseSpecific.sample_info_hashes_response (record {
                responder_id = parts.responder_id;
                interval = parts.interval;
                nodes = parts.nodes;
                samples = samples;
                num = pos parts.num;
              }));
          read_only = none;
        }))
      else none
]

unfoldable pub build_error : MessageBuilder → Result Message
build_error b = do
  transaction_id ← required_or_error b.transaction_id "transaction_id"
  code ← required_or_error b.code "code"
  description ← required_or_error b.description "description"
  ok (record {
    transaction_id = transaction_id;
    version = none;
    requester_ip = none;
    message_type = MessageType.error (record { code = code; description = description });
    read_only = none;
  })

-- The `match` of `build`.
unfoldable pub build_as : BuilderMessageType → MessageBuilder → List ℕ → Option (Result Message)
build_as ping_request b random = some (build_ping_request b random)
build_as ping_response b random = some (build_ping_response b)
build_as find_node_request b random = some (build_find_node_request b random)
build_as find_node_response b random = some (build_find_node_response b)
build_as get_peers_request b random = some (build_get_peers_request b random)
build_as get_peers_response b random = some (build_get_peers_response b)
build_as announce_peer_request b random = some (build_announce_peer_request b random)
build_as announce_peer_response b random = some (build_announce_peer_response b)
build_as sample_info_hashes_request b random = some (build_sample_infohashes_request b random)
build_as sample_info_hashes_response b random = build_sample_infohashes_response b
build_as error b random = some (build_error b)

unfoldable pub build : MessageBuilder → List ℕ → Option (Result Message)
build b random = build_as b.message_type b random
