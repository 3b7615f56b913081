-- ===== src/Packets/Convert/Roundtrip.antt =====
-- src/packets/public.rs: what becomes of a message that is turned into the wire structures and
-- back.
use mathlib.Core.Option
use rustydht_lib.Prelude.{
  ◌≡◌, refl, min, Bool, true, false, not, Option, none, some, arith, ◌==◌, All,
}
use rustydht_lib.Common.Error.{ok}
use rustydht_lib.Common.Id.{IsId}
use rustydht_lib.Common.Int.{ℤ, pos, negsuc, IsI32, is_at_least, to_i32, to_u64}
use rustydht_lib.Common.Net.{SocketAddr}
use rustydht_lib.Packets.Message.{
  GetPeersResponseValues, nodes, peers, RequestSpecific, ping_request, find_node_request,
  get_peers_request, sample_info_hashes_request, announce_peer_request, ResponseSpecific,
  ping_response, find_node_response, get_peers_response, sample_info_hashes_response, MessageType,
  request, response, error, Message,
}
use rustydht_lib.Packets.Bytes.{is_utf8, sockaddr_to_bytes}
use rustydht_lib.Packets.Bytes.Roundtrip.{
  IsV4, IsNode4, from_bytes-to_vec, bytes_to_sockaddr-sockaddr_to_bytes,
  bytes_to_nodes4-nodes4_to_bytes,
}
use rustydht_lib.Packets.Bytes.Samples.{
  bytes_to_peers-peers_to_bytes, bytes_to_samples-samples_to_bytes,
}
use rustydht_lib.Packets.Convert.{
  bool_to_int, into_request, nodes_field, values_field, into_response, into_variant,
  into_serde_message, from_request, from_values, from_response, from_code, from_description,
  from_error, from_variant, from_ip_field, from_serde_message,
}

-- What a message must be to fit the wire: ids of 20 bytes, IPv4 addresses only, a code of 32 bits,
-- and a description in UTF-8.
abbrev pub IsRequest : RequestSpecific → Type 0
IsRequest (ping_request a) = IsId a.requester_id
IsRequest (find_node_request a) = IsId a.target × IsId a.requester_id
IsRequest (get_peers_request a) = IsId a.info_hash × IsId a.requester_id
IsRequest (sample_info_hashes_request a) = IsId a.target × IsId a.requester_id
IsRequest (announce_peer_request a) = IsId a.info_hash × IsId a.requester_id

abbrev pub IsValues : GetPeersResponseValues → Type 0
IsValues (nodes ns) = All IsNode4 ns
IsValues (peers ps) = All IsV4 ps

abbrev pub IsResponse : ResponseSpecific → Type 0
IsResponse (ping_response a) = IsId a.responder_id
IsResponse (find_node_response a) = IsId a.responder_id × All IsNode4 a.nodes
IsResponse (get_peers_response a) = IsId a.responder_id × IsValues a.values
IsResponse (sample_info_hashes_response a) =
    IsId a.responder_id × All IsNode4 a.nodes × All IsId a.samples

abbrev pub IsMessageType : MessageType → Type 0
IsMessageType (request r) = IsRequest r
IsMessageType (response r) = IsResponse r
IsMessageType (error e) = IsI32 e.code × (is_utf8 e.description ≡ true)

abbrev pub IsRequesterIp : Option SocketAddr → Type 0
IsRequesterIp none = Unit
IsRequesterIp (some s) = IsV4 s

-- The interval of a response to `sample_infohashes` in whole seconds, six hours at most.
abbrev pub capped_response : ResponseSpecific → ResponseSpecific
capped_response (sample_info_hashes_response a) =
    sample_info_hashes_response
      (record a { interval = record { secs = min 21600 a.interval.secs; nanos = 0 } })
capped_response r = r

abbrev pub capped : MessageType → MessageType
capped (response r) = response (capped_response r)
capped t = t

implied_port_lem : (o : Option Bool) → Option.map (λ p. not (p == 0)) (Option.map bool_to_int o) ≡ o
unfolding bool_to_int
implied_port_lem none = refl
implied_port_lem (some true) = refl
implied_port_lem (some false) = refl

read_only_lem :
    (o : Option Bool)
    → Option.map (λ i. is_at_least i 1) (Option.map (λ b. pos (bool_to_int b)) o) ≡ o
unfolding bool_to_int
read_only_lem none = refl
read_only_lem (some true) = refl
read_only_lem (some false) = refl

from_request-into_request :
    (r : RequestSpecific) → IsRequest r → from_request (into_request r) ≡ ok r
unfolding from_request into_request
from_request-into_request (ping_request a) h = rw (from_bytes-to_vec a.requester_id h) refl
from_request-into_request (find_node_request a) h =
    rw (from_bytes-to_vec a.requester_id h.1, from_bytes-to_vec a.target h.0) refl
from_request-into_request (get_peers_request a) h =
    rw (from_bytes-to_vec a.requester_id h.1, from_bytes-to_vec a.info_hash h.0) refl
from_request-into_request (sample_info_hashes_request a) h =
    rw (from_bytes-to_vec a.requester_id h.1, from_bytes-to_vec a.target h.0) refl
from_request-into_request (announce_peer_request a) h =
    rw
      (
        from_bytes-to_vec a.requester_id h.1,
        from_bytes-to_vec a.info_hash h.0,
        implied_port_lem a.implied_port,
      )
      refl

from_values_lem :
    (v : GetPeersResponseValues) → IsValues v → from_values (values_field v) (nodes_field v) ≡ ok v
unfolding from_values values_field nodes_field
from_values_lem (nodes ns) h = rw (bytes_to_nodes4-nodes4_to_bytes ns h) refl
from_values_lem (peers ps) h = rw (bytes_to_peers-peers_to_bytes ps h) refl

from_response-into_response :
    (r : ResponseSpecific) → IsResponse r → from_response (into_response r) ≡ ok (capped_response r)
unfolding from_response into_response to_u64
from_response-into_response (ping_response a) h = rw (from_bytes-to_vec a.responder_id h) refl
from_response-into_response (find_node_response a) h =
    rw (from_bytes-to_vec a.responder_id h.0, bytes_to_nodes4-nodes4_to_bytes a.nodes h.1) refl
from_response-into_response (get_peers_response a) h =
    rw (from_bytes-to_vec a.responder_id h.0, from_values_lem a.values h.1) refl
from_response-into_response (sample_info_hashes_response a) h =
    rw
      (
        from_bytes-to_vec a.responder_id h.0,
        bytes_to_nodes4-nodes4_to_bytes a.nodes h.1,
        bytes_to_samples-samples_to_bytes a.samples h.2,
      )
      refl

to_i32_lem : (i : ℤ) → IsI32 i → to_i32 i ≡ ok i
unfolding to_i32
to_i32_lem (pos n) h = ground arith
to_i32_lem (negsuc n) h = ground arith

from_variant-into_variant :
    (t : MessageType) → IsMessageType t → from_variant (into_variant t) ≡ ok (capped t)
unfolding from_variant into_variant from_error from_code from_description
from_variant-into_variant (request r) h = rw (from_request-into_request r h) refl
from_variant-into_variant (response r) h = rw (from_response-into_response r h) refl
from_variant-into_variant (error e) h = rw (to_i32_lem e.code h.0, h.1) refl

from_ip_field_lem :
    (o : Option SocketAddr)
    → IsRequesterIp o
    → from_ip_field (Option.map sockaddr_to_bytes o) ≡ ok o
unfolding from_ip_field
from_ip_field_lem none h = refl
from_ip_field_lem (some s) h = rw (bytes_to_sockaddr-sockaddr_to_bytes s h) refl

-- A message that fits the wire is read back as it was, but for the interval of a response to
-- `sample_infohashes`: whole seconds of it are kept, six hours at most.
pub from_serde_message-into_serde_message :
    (m : Message)
    → IsRequesterIp m.requester_ip
    → IsMessageType m.message_type
    → from_serde_message (into_serde_message m)
      ≡ ok (record m { message_type = capped m.message_type })
unfolding from_serde_message into_serde_message
from_serde_message-into_serde_message m hip ht =
    rw
      (
        from_ip_field_lem m.requester_ip hip,
        from_variant-into_variant m.message_type ht,
        read_only_lem m.read_only,
      )
      refl
