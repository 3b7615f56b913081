-- ===== src/Tests/Requests.antt =====
-- src/storage/outbound_request_storage.rs: the theorems on waiting requests at a concrete ping.
use rustydht_lib.Prelude.{◌≡◌, ◌⊎◌, ◌↔◌, none, some, List, [], ◌∷◌, ℕ, if◌then◌else◌}
use rustydht_lib.Common.Id.{bytes_eq}
use rustydht_lib.Packets.Message.{MessageType, RequestSpecific, ResponseSpecific, Message}
use rustydht_lib.Storage.OutboundRequestStorage.{
  RequestInfo, OutboundRequestStorage, find, get_matching_request_info, take_matching_request_info,
}
use rustydht_lib.Storage.OutboundRequestStorage.Matching.{
  IsMatch, get_matching_request_info_lem, take_matching_request_info_lem,
}
use rustydht_lib.Tests.Data.{id_of, local_address}

abbrev message_of : MessageType → Message
message_of t = record {
  transaction_id = 1 ∷ 2 ∷ [];
  version = none;
  requester_ip = none;
  message_type = t;
  read_only = none;
}

abbrev ping : RequestInfo
ping = record {
  addr = local_address;
  id = some (id_of 2);
  packet =
      message_of
        (MessageType.request (RequestSpecific.ping_request (record { requester_id = id_of 1 })));
  created_at = 5;
  response_channel = none;
}

abbrev pong : Message
pong =
    message_of
      (MessageType.response (ResponseSpecific.ping_response (record { responder_id = id_of 2 })))

abbrev waiting : OutboundRequestStorage
waiting = record { requests = (1 ∷ 2 ∷ [], ping) ∷ [] }

get_matching_example :
    (get_matching_request_info waiting pong local_address ≡ some ping)
    ↔ ((find pong.transaction_id waiting.requests ≡ some ping) × IsMatch pong local_address ping)
get_matching_example = get_matching_request_info_lem waiting pong local_address ping

take_matching_example :
    ((get_matching_request_info waiting pong local_address ≡ none)
      × (take_matching_request_info waiting pong local_address ≡ (none, waiting)))
    ⊎ ((info : RequestInfo) × (get_matching_request_info waiting pong local_address ≡ some info)
        × ((take_matching_request_info waiting pong local_address).0 ≡ some info)
        × ((k : List ℕ)
            → find k (take_matching_request_info waiting pong local_address).1.requests
              ≡ (if bytes_eq k pong.transaction_id then none else find k waiting.requests)))
take_matching_example = take_matching_request_info_lem waiting pong local_address
