-- ===== src/Tests/Packets.antt =====
-- src/packets: the theorems on messages at concrete messages.
use rustydht_lib.Prelude.{
  ℕ, ◌==◌, ◌<◌, ◌≡◌, refl, true, none, some, List, [], ◌∷◌, arith, All, replicate,
}
use rustydht_lib.Common.Error.{Result, ok, is_ok}
use rustydht_lib.Common.Int.{pos}
use rustydht_lib.Common.Net.{Node, is_ipv4}
use rustydht_lib.Packets.Message.{
  MessageType, RequestSpecific, ResponseSpecific, Message, get_author_id, response_matches_request,
}
use rustydht_lib.Packets.Message.Matching.{
  request_method, response_method, response_matches_request_lem,
}
use rustydht_lib.Packets.Bytes.{nodes4_to_bytes, bytes_to_nodes4}
use rustydht_lib.Packets.Bytes.Roundtrip.{
  IsV4, IsNode4, bytes_to_nodes4-nodes4_to_bytes, bytes_to_nodes4_total,
}
use rustydht_lib.Packets.Convert.{into_serde_message, from_serde_message}
use rustydht_lib.Packets.Convert.Roundtrip.{capped, from_serde_message-into_serde_message}
use rustydht_lib.Packets.Builder.{
  MessageBuilder, new, new_ping_request, build, build_as, build_ping_request, build_request_common,
  required_or_error, or_else,
}
use rustydht_lib.Packets.Builder.Setters
use rustydht_lib.Packets.Builder.Complete.{
  is_complete, is_i32, author_field, version_field, build_complete, build_fields,
}
use rustydht_lib.Tests.Data.{id_of, id_of-IsId, id_from-IsId, All-zeros, local_address, node_of}

local-IsV4 : IsV4 local_address
unfolding is_ipv4
local-IsV4 = record { is_v4 = refl; is_port = omega arith }

node-IsNode4 : (n : ℕ) → n < 256 → IsNode4 (node_of n)
node-IsNode4 n h = record { is_id = id_from-IsId n h; is_address = local-IsV4 }

bytes_to_nodes4_example :
    bytes_to_nodes4 (nodes4_to_bytes (node_of 1 ∷ node_of 2 ∷ [])) ≡ ok (node_of 1 ∷ node_of 2 ∷ [])
bytes_to_nodes4_example =
    bytes_to_nodes4-nodes4_to_bytes (node_of 1 ∷ node_of 2 ∷ [])
      (node-IsNode4 1 (omega arith), (node-IsNode4 2 (omega arith), tt))

bytes_to_nodes4_total_example :
    (ns : List Node) × (bytes_to_nodes4 (replicate 52 0) ≡ ok ns)
    × All IsNode4 ns
    × (nodes4_to_bytes ns ≡ replicate 52 0)
bytes_to_nodes4_total_example = bytes_to_nodes4_total (replicate 52 0) (All-zeros 52) refl

-- A response to `sample_infohashes` with an interval above six hours.
abbrev sample_response : Message
sample_response = record {
  transaction_id = 1 ∷ 2 ∷ [];
  version = none;
  requester_ip = some local_address;
  message_type = MessageType.response (
      ResponseSpecific.sample_info_hashes_response (record {
        responder_id = id_of 1;
        interval = record { secs = 30000; nanos = 7 };
        nodes = node_of 3 ∷ [];
        samples = id_of 4 ∷ [];
        num = pos 1;
      }));
  read_only = none;
}

roundtrip_example :
    from_serde_message (into_serde_message sample_response)
    ≡ ok (record sample_response { message_type = capped sample_response.message_type })
roundtrip_example = from_serde_message-into_serde_message sample_response local-IsV4 (
  id_of-IsId 1 (omega arith),
  (node-IsNode4 3 (omega arith), tt),
  (id_of-IsId 4 (omega arith), tt),
)

abbrev ping : MessageBuilder
unfolding new_ping_request new
ping = Setters.sender_id new_ping_request (id_of 1)

ping_small : is_i32 ping.num_infohashes ≡ true
unfolding new_ping_request new
ping_small = refl

build_complete_example :
    (r : Result Message) × (build ping (1 ∷ 2 ∷ []) ≡ some r)
    × (is_ok r ≡ is_complete ping.message_type ping)
build_complete_example = build_complete ping (1 ∷ 2 ∷ []) ping_small

abbrev pinged : Message
pinged = record {
  transaction_id = 1 ∷ 2 ∷ [];
  version = none;
  requester_ip = none;
  message_type =
      MessageType.request (RequestSpecific.ping_request (record { requester_id = id_of 1 }));
  read_only = none;
}

ping_built : build ping (1 ∷ 2 ∷ []) ≡ some (ok pinged)
unfolding build build_as build_ping_request build_request_common required_or_error new_ping_request
    new
ping_built = refl

build_fields_example :
    (get_author_id pinged ≡ author_field ping.message_type ping)
    × (pinged.version ≡ version_field ping.message_type ping)
    × (pinged.transaction_id ≡ or_else ping.transaction_id (1 ∷ 2 ∷ []))
build_fields_example = build_fields ping (1 ∷ 2 ∷ []) pinged ping_built

matches_example :
    response_matches_request
      (ResponseSpecific.ping_response (record { responder_id = id_of 2 }))
      (RequestSpecific.ping_request (record { requester_id = id_of 1 }))
    ≡ (response_method (ResponseSpecific.ping_response (record { responder_id = id_of 2 }))
        == request_method (RequestSpecific.ping_request (record { requester_id = id_of 1 })))
matches_example =
    response_matches_request_lem
      (ResponseSpecific.ping_response (record { responder_id = id_of 2 }))
      (RequestSpecific.ping_request (record { requester_id = id_of 1 }))
