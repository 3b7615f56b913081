-- ===== src/Storage/OutboundRequestStorage.antt =====
-- src/storage/outbound_request_storage.rs: the requests that wait for a response. The hash map is
-- a list of keys and values; inserting a key removes its old value. A response channel is a number
-- that stands for it.
pub mod Matching
use rustydht_lib.Prelude.{
  ℕ, ◌-◌, Bool, true, false, ◌&&◌, Option, none, some, is_some, List, [], ◌∷◌, ltb, leb,
  if◌then◌else◌, length,
}
use rustydht_lib.Common.Id.{NodeId, bytes_eq, id_eq}
use rustydht_lib.Common.Net.{SocketAddr, sockaddr_eq}
use rustydht_lib.Packets.Message.{
  MessageType, request, response, ResponseSpecific, Message, get_author_id,
  response_matches_request,
}

pub record RequestInfo : Type 0 where
  pub addr : SocketAddr
  pub id : Option NodeId
  pub packet : Message
  pub created_at : ℕ
  pub response_channel : Option ℕ

pub record OutboundRequestStorage : Type 0 where
  pub requests : List (List ℕ × RequestInfo)

-- `HashMap::get`, `HashMap::remove` and `HashMap::retain`.
unfoldable pub find : List ℕ → List (List ℕ × RequestInfo) → Option RequestInfo
find tid [] = none
find tid (e ∷ es) = if bytes_eq e.0 tid then some e.1 else find tid es

unfoldable pub erase : List ℕ → List (List ℕ × RequestInfo) → List (List ℕ × RequestInfo)
erase tid [] = []
erase tid (e ∷ es) = if bytes_eq e.0 tid then erase tid es else e ∷ erase tid es

unfoldable pub keep_since : ℕ → List (List ℕ × RequestInfo) → List (List ℕ × RequestInfo)
keep_since time [] = []
keep_since time (e ∷ es) =
    if leb time e.1.created_at then e ∷ keep_since time es else keep_since time es

unfoldable pub add_request : OutboundRequestStorage → RequestInfo → OutboundRequestStorage
add_request s info = record {
  requests = (info.packet.transaction_id, info) ∷ erase info.packet.transaction_id s.requests;
}

-- The sender is the recorded addressee of the request, if one is recorded.
unfoldable pub sender_matches : Option NodeId → Option NodeId → Bool
sender_matches none sender = true
sender_matches (some id) none = false
sender_matches (some id) (some sender) = id_eq id sender

unfoldable pub kind_matches : ResponseSpecific → MessageType → Bool
kind_matches res (request req) = response_matches_request res req
kind_matches res _ = false

unfoldable pub check_request :
    Message → SocketAddr → ResponseSpecific → RequestInfo → Option RequestInfo
check_request msg src_addr res info =
    if sockaddr_eq info.addr src_addr
      && (sender_matches info.id (get_author_id msg) && kind_matches res info.packet.message_type)
    then some info
    else none

unfoldable pub match_response :
    List (List ℕ × RequestInfo) → Message → SocketAddr → MessageType → Option RequestInfo
match_response requests msg src_addr (response res) = elim (find msg.transaction_id requests) [
  | none ↦ none
  | some info ↦ check_request msg src_addr res info
]
match_response requests msg src_addr _ = none

unfoldable pub get_matching_request_info :
    OutboundRequestStorage → Message → SocketAddr → Option RequestInfo
get_matching_request_info s msg src_addr = match_response s.requests msg src_addr msg.message_type

unfoldable pub take_matching_request_info :
    OutboundRequestStorage → Message → SocketAddr → Option RequestInfo × OutboundRequestStorage
take_matching_request_info s msg src_addr =
    if is_some (get_matching_request_info s msg src_addr)
    then (
      find msg.transaction_id s.requests,
      record { requests = erase msg.transaction_id s.requests },
    )
    else (none, s)

unfoldable pub prune_older_than : OutboundRequestStorage → ℕ → ℕ → OutboundRequestStorage
prune_older_than s now duration =
    if ltb now duration then s else record { requests = keep_since (now - duration) s.requests }

unfoldable pub len : OutboundRequestStorage → ℕ
len s = length s.requests

unfoldable pub is_empty : OutboundRequestStorage → Bool
is_empty s = elim s.requests [ [] ↦ true | _ ↦ false ]
