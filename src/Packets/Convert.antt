-- ===== src/Packets/Convert.antt =====
-- src/packets/public.rs: `into_serde_message` and `from_serde_message`.
pub mod Roundtrip
use mathlib.Core.Option
use rustydht_lib.Prelude.{
  ℕ, min, Bool, true, false, not, Option, none, some, List, [], ◌∷◌, ◌==◌, if◌then◌else◌,
}
use rustydht_lib.Common.Error.{Result, ok, err, ◌>>=◌, map_ok, packet_parse_error}
use rustydht_lib.Common.Id.{from_bytes, to_vec}
use rustydht_lib.Common.Int.{ℤ, pos, negsuc, is_at_least, to_i32, to_u64}
use rustydht_lib.Common.Net.{SocketAddr}
use rustydht_lib.Packets.Internal.{
  Value, int, bytes, DhtRequestSpecific, DhtResponseSpecific, DhtErrorSpecific, DhtMessageVariant,
  dht_request, dht_response, dht_error, DhtMessage, DhtGetPeersResponseArguments,
}
use rustydht_lib.Packets.Message.{
  GetPeersResponseValues, nodes, peers, RequestSpecific, ping_request, find_node_request,
  get_peers_request, sample_info_hashes_request, announce_peer_request, ResponseSpecific,
  ping_response, find_node_response, get_peers_response, sample_info_hashes_response, ErrorSpecific,
  MessageType, request, response, error, Message,
}
use rustydht_lib.Packets.Bytes.{
  bytes_to_sockaddr, sockaddr_to_bytes, nodes4_to_bytes, bytes_to_nodes4, peers_to_bytes,
  bytes_to_peers, samples_to_bytes, bytes_to_samples, is_utf8,
}

abbrev pub max_scrape_interval : ℕ
max_scrape_interval = 21600

unfoldable pub bool_to_int : Bool → ℕ
bool_to_int true = 1
bool_to_int false = 0

unfoldable pub into_request : RequestSpecific → DhtRequestSpecific
into_request (ping_request a) = DhtRequestSpecific.ping (record { id = to_vec a.requester_id })
into_request (find_node_request a) =
    DhtRequestSpecific.find_node (record { id = to_vec a.requester_id; target = to_vec a.target })
into_request (get_peers_request a) =
    DhtRequestSpecific.get_peers
      (record { id = to_vec a.requester_id; info_hash = to_vec a.info_hash })
into_request (sample_info_hashes_request a) =
    DhtRequestSpecific.sample_info_hashes
      (record { id = to_vec a.requester_id; target = to_vec a.target })
into_request (announce_peer_request a) = DhtRequestSpecific.announce_peer (record {
  id = to_vec a.requester_id;
  info_hash = to_vec a.info_hash;
  port = a.port;
  token = a.token;
  implied_port = Option.map bool_to_int a.implied_port;
})

-- The two fields of a response to `get_peers`.
unfoldable pub nodes_field : GetPeersResponseValues → Option (List ℕ)
nodes_field (nodes ns) = some (nodes4_to_bytes ns)
nodes_field (peers ps) = none

unfoldable pub values_field : GetPeersResponseValues → Option (List (List ℕ))
values_field (nodes ns) = none
values_field (peers ps) = some (peers_to_bytes ps)

unfoldable pub into_response : ResponseSpecific → DhtResponseSpecific
into_response (find_node_response a) =
    DhtResponseSpecific.find_node
      (record { id = to_vec a.responder_id; nodes = nodes4_to_bytes a.nodes })
into_response (get_peers_response a) = DhtResponseSpecific.get_peers (record {
  id = to_vec a.responder_id;
  token = a.token;
  nodes = nodes_field a.values;
  values = values_field a.values;
})
into_response (ping_response a) = DhtResponseSpecific.ping (record { id = to_vec a.responder_id })
into_response (sample_info_hashes_response a) = DhtResponseSpecific.sample_info_hashes (record {
  id = to_vec a.responder_id;
  interval = pos (min max_scrape_interval a.interval.secs);
  nodes = nodes4_to_bytes a.nodes;
  num = a.num;
  samples = samples_to_bytes a.samples;
})

unfoldable pub into_variant : MessageType → DhtMessageVariant
into_variant (request r) = dht_request (into_request r)
into_variant (response r) = dht_response (into_response r)
into_variant (error e) = dht_error (record { error_info = int e.code ∷ bytes e.description ∷ [] })

unfoldable pub into_serde_message : Message → DhtMessage
into_serde_message m = record {
  transaction_id = m.transaction_id;
  version = m.version;
  variant = into_variant m.message_type;
  ip = Option.map sockaddr_to_bytes m.requester_ip;
  read_only = Option.map (λ b. pos (bool_to_int b)) m.read_only;
}

unfoldable pub from_request : DhtRequestSpecific → Result RequestSpecific
from_request (DhtRequestSpecific.announce_peer a) = do
  requester_id ← from_bytes a.id
  info_hash ← from_bytes a.info_hash
  ok (
      announce_peer_request (record {
        requester_id = requester_id;
        info_hash = info_hash;
        port = a.port;
        implied_port = Option.map (λ p. not (p == 0)) a.implied_port;
        token = a.token;
      }))
from_request (DhtRequestSpecific.find_node a) = do
  requester_id ← from_bytes a.id
  target ← from_bytes a.target
  ok (find_node_request (record { target = target; requester_id = requester_id }))
from_request (DhtRequestSpecific.get_peers a) = do
  requester_id ← from_bytes a.id
  info_hash ← from_bytes a.info_hash
  ok (get_peers_request (record { info_hash = info_hash; requester_id = requester_id }))
from_request (DhtRequestSpecific.ping a) = do
  requester_id ← from_bytes a.id
  ok (ping_request (record { requester_id = requester_id }))
from_request (DhtRequestSpecific.sample_info_hashes a) = do
  requester_id ← from_bytes a.id
  target ← from_bytes a.target
  ok (sample_info_hashes_request (record { target = target; requester_id = requester_id }))

-- Peers win over nodes; neither is an empty list of nodes.
unfoldable pub from_values :
    Option (List (List ℕ)) → Option (List ℕ) → Result GetPeersResponseValues
from_values (some vs) ns = map_ok peers (bytes_to_peers vs)
from_values none (some ns) = map_ok nodes (bytes_to_nodes4 ns)
from_values none none = ok (nodes [])

unfoldable pub from_response : DhtResponseSpecific → Result ResponseSpecific
from_response (DhtResponseSpecific.find_node a) = do
  responder_id ← from_bytes a.id
  ns ← bytes_to_nodes4 a.nodes
  ok (find_node_response (record { responder_id = responder_id; nodes = ns }))
from_response (DhtResponseSpecific.get_peers a) = do
  responder_id ← from_bytes a.id
  vs ← from_values a.values a.nodes
  ok (get_peers_response (record { responder_id = responder_id; token = a.token; values = vs }))
from_response (DhtResponseSpecific.ping a) = do
  responder_id ← from_bytes a.id
  ok (ping_response (record { responder_id = responder_id }))
from_response (DhtResponseSpecific.sample_info_hashes a) = do
  responder_id ← from_bytes a.id
  ns ← bytes_to_nodes4 a.nodes
  samples ← bytes_to_samples a.samples
  ok (
      sample_info_hashes_response (record {
        responder_id = responder_id;
        interval = record { secs = to_u64 a.interval; nanos = 0 };
        nodes = ns;
        samples = samples;
        num = a.num;
      }))

-- The error code, an integer that fits 32 bits, and the description, UTF-8.
unfoldable pub from_code : Value → Result ℤ
from_code (int code) = to_i32 code
from_code _ = err packet_parse_error

unfoldable pub from_description : Value → Result (List ℕ)
from_description (bytes desc) = if is_utf8 desc then ok desc else err packet_parse_error
from_description _ = err packet_parse_error

unfoldable pub from_error : List Value → Result ErrorSpecific
from_error (x ∷ y ∷ rest) = do
  code ← from_code x
  description ← from_description y
  ok (record { code = code; description = description })
from_error _ = err packet_parse_error

unfoldable pub from_variant : DhtMessageVariant → Result MessageType
from_variant (dht_request r) = map_ok request (from_request r)
from_variant (dht_response r) = map_ok response (from_response r)
from_variant (dht_error e) = map_ok error (from_error e.error_info)

unfoldable pub from_ip_field : Option (List ℕ) → Result (Option SocketAddr)
from_ip_field none = ok none
from_ip_field (some ip) = map_ok some (bytes_to_sockaddr ip)

unfoldable pub from_serde_message : DhtMessage → Result Message
from_serde_message m = do
  requester_ip ← from_ip_field m.ip
  message_type ← from_variant m.variant
  ok (record {
    transaction_id = m.transaction_id;
    version = m.version;
    requester_ip = requester_ip;
    message_type = message_type;
    read_only = Option.map (λ i. is_at_least i 1) m.read_only;
  })
