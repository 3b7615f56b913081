-- ===== src/Packets/Message/Matching.antt =====
-- src/packets/public.rs: which responses answer which requests.
use rustydht_lib.Prelude.{ℕ, ◌≡◌, refl, ◌==◌}
use rustydht_lib.Packets.Message.{
  RequestSpecific, ping_request, find_node_request, get_peers_request, sample_info_hashes_request,
  announce_peer_request, ResponseSpecific, ping_response, find_node_response, get_peers_response,
  sample_info_hashes_response, response_matches_request,
}

-- A number for each method of the protocol; `announce_peer` is answered as `ping` is.
abbrev pub request_method : RequestSpecific → ℕ
request_method (ping_request a) = 0
request_method (announce_peer_request a) = 0
request_method (find_node_request a) = 1
request_method (get_peers_request a) = 2
request_method (sample_info_hashes_request a) = 3

abbrev pub response_method : ResponseSpecific → ℕ
response_method (ping_response a) = 0
response_method (find_node_response a) = 1
response_method (get_peers_response a) = 2
response_method (sample_info_hashes_response a) = 3

-- A response matches a request exactly if the two have the same method, where `announce_peer`
-- counts as `ping`.
pub response_matches_request_lem :
    (res : ResponseSpecific) (req : RequestSpecific)
    → response_matches_request res req ≡ (response_method res == request_method req)
unfolding response_matches_request
response_matches_request_lem (ping_response a) (ping_request b) = refl
response_matches_request_lem (ping_response a) (find_node_request b) = refl
response_matches_request_lem (ping_response a) (get_peers_request b) = refl
response_matches_request_lem (ping_response a) (sample_info_hashes_request b) = refl
response_matches_request_lem (ping_response a) (announce_peer_request b) = refl
response_matches_request_lem (find_node_response a) (ping_request b) = refl
response_matches_request_lem (find_node_response a) (find_node_request b) = refl
response_matches_request_lem (find_node_response a) (get_peers_request b) = refl
response_matches_request_lem (find_node_response a) (sample_info_hashes_request b) = refl
response_matches_request_lem (find_node_response a) (announce_peer_request b) = refl
response_matches_request_lem (get_peers_response a) (ping_request b) = refl
response_matches_request_lem (get_peers_response a) (find_node_request b) = refl
response_matches_request_lem (get_peers_response a) (get_peers_request b) = refl
response_matches_request_lem (get_peers_response a) (sample_info_hashes_request b) = refl
response_matches_request_lem (get_peers_response a) (announce_peer_request b) = refl
response_matches_request_lem (sample_info_hashes_response a) (ping_request b) = refl
response_matches_request_lem (sample_info_hashes_response a) (find_node_request b) = refl
response_matches_request_lem (sample_info_hashes_response a) (get_peers_request b) = refl
response_matches_request_lem (sample_info_hashes_response a) (sample_info_hashes_request b) = refl
response_matches_request_lem (sample_info_hashes_response a) (announce_peer_request b) = refl
