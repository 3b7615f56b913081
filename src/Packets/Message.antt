-- ===== src/Packets/Message.antt =====
-- src/packets/public.rs: `Message` and what it holds, `get_author_id` and
-- `response_matches_request`. A `String` is the list of its UTF-8 bytes.
pub mod Matching
use rustydht_lib.Prelude.{ℕ, Bool, true, false, Option, none, some, List}
use rustydht_lib.Common.Id.{NodeId}
use rustydht_lib.Common.Int.{ℤ}
use rustydht_lib.Common.Net.{Node, SocketAddr}

-- `std::time::Duration`
pub record Duration : Type 0 where
  pub secs : ℕ
  pub nanos : ℕ

pub record PingRequestArguments : Type 0 where
  pub requester_id : NodeId

pub record FindNodeRequestArguments : Type 0 where
  pub target : NodeId
  pub requester_id : NodeId

pub record GetPeersRequestArguments : Type 0 where
  pub info_hash : NodeId
  pub requester_id : NodeId

pub record SampleInfoHashesRequestArguments : Type 0 where
  pub target : NodeId
  pub requester_id : NodeId

pub record AnnouncePeerRequestArguments : Type 0 where
  pub requester_id : NodeId
  pub info_hash : NodeId
  pub port : ℕ
  pub implied_port : Option Bool
  pub token : List ℕ

pub data RequestSpecific : Type 0 where
  ping_request : PingRequestArguments → RequestSpecific
  find_node_request : FindNodeRequestArguments → RequestSpecific
  get_peers_request : GetPeersRequestArguments → RequestSpecific
  sample_info_hashes_request : SampleInfoHashesRequestArguments → RequestSpecific
  announce_peer_request : AnnouncePeerRequestArguments → RequestSpecific

pub data GetPeersResponseValues : Type 0 where
  nodes : List Node → GetPeersResponseValues
  peers : List SocketAddr → GetPeersResponseValues

pub record PingResponseArguments : Type 0 where
  pub responder_id : NodeId

pub record FindNodeResponseArguments : Type 0 where
  pub responder_id : NodeId
  pub nodes : List Node

pub record GetPeersResponseArguments : Type 0 where
  pub responder_id : NodeId
  pub token : List ℕ
  pub values : GetPeersResponseValues

pub record SampleInfoHashesResponseArguments : Type 0 where
  pub responder_id : NodeId
  pub interval : Duration
  pub nodes : List Node
  pub samples : List NodeId
  pub num : ℤ

pub data ResponseSpecific : Type 0 where
  ping_response : PingResponseArguments → ResponseSpecific
  find_node_response : FindNodeResponseArguments → ResponseSpecific
  get_peers_response : GetPeersResponseArguments → ResponseSpecific
  sample_info_hashes_response : SampleInfoHashesResponseArguments → ResponseSpecific

pub record ErrorSpecific : Type 0 where
  pub code : ℤ
  pub description : List ℕ

pub data MessageType : Type 0 where
  request : RequestSpecific → MessageType
  response : ResponseSpecific → MessageType
  error : ErrorSpecific → MessageType

pub record Message : Type 0 where
  pub transaction_id : List ℕ
  pub version : Option (List ℕ)
  pub requester_ip : Option SocketAddr
  pub message_type : MessageType
  pub read_only : Option Bool

unfoldable pub request_author : RequestSpecific → NodeId
request_author (ping_request a) = a.requester_id
request_author (find_node_request a) = a.requester_id
request_author (get_peers_request a) = a.requester_id
request_author (sample_info_hashes_request a) = a.requester_id
request_author (announce_peer_request a) = a.requester_id

unfoldable pub response_author : ResponseSpecific → NodeId
response_author (ping_response a) = a.responder_id
response_author (find_node_response a) = a.responder_id
response_author (get_peers_response a) = a.responder_id
response_author (sample_info_hashes_response a) = a.responder_id

unfoldable pub get_author_id : Message → Option NodeId
get_author_id m = elim m.message_type [
  | request r ↦ some (request_author r)
  | response r ↦ some (response_author r)
  | error e ↦ none
]

-- A response to `announce_peer` is a ping response.
unfoldable pub response_matches_request : ResponseSpecific → RequestSpecific → Bool
response_matches_request (ping_response a) (ping_request b) = true
response_matches_request (ping_response a) (announce_peer_request b) = true
response_matches_request (find_node_response a) (find_node_request b) = true
response_matches_request (get_peers_response a) (get_peers_request b) = true
response_matches_request (sample_info_hashes_response a) (sample_info_hashes_request b) = true
response_matches_request _ _ = false
