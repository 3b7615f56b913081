-- ===== src/Tests/Searches.antt =====
-- src/dht/socket.rs and src/dht/operations.rs: a ping from one node to another, and a search.
use rustydht_lib.Prelude.{
  ◌+◌, ℕ, ◌≡◌, refl, Bool, true, none, some, List, [], ◌∷◌, ◌++◌, arith, map, All, count_if, min,
  length,
}
use rustydht_lib.Common.Error.{Result, ok, err, timeout_error}
use rustydht_lib.Common.Id.{
  IsId, matching_prefix_bits, prefix_bits, xor, xor_bytes, cmp_bytes, bytes_eq, id_eq,
}
use rustydht_lib.Common.Net.{v4, SocketAddr, sockaddr_eq}
use rustydht_lib.Packets.Message.{
  Message, GetPeersResponseValues, MessageType, RequestSpecific, ResponseSpecific, request_author,
}
use rustydht_lib.Storage.OutboundRequestStorage.{sender_matches}
use rustydht_lib.Storage.NodeWrapper.{NodeWrapper, node_wrapper_bucketable}
use rustydht_lib.Storage.NodeBucketStorage.Invariant.{IsPart}
use rustydht_lib.Storage.Sort.{IsSortedBy}
use rustydht_lib.Storage.Sort.Insertion.{insertion_sort}
use rustydht_lib.Storage.Buckets.Nearest.{distance}
use rustydht_lib.Storage.Vec.{total}
use rustydht_lib.Dht.Handlers.{Sent, Handled, accept_single_packet}
use rustydht_lib.Dht.Socket.{DhtSocket, new, send, incoming_single}
use rustydht_lib.Dht.Socket.Delivery.{request_answered}
use rustydht_lib.Dht.Operations.{
  Search, PeersSearch, start_peers, Turn, ids_of, start, seed, add_new, decide, is_empty, ids_eq,
  find_node_round, find_node_result, GetPeersResponder, get_peers_result, announce_targets,
  nodes_found,
}
use rustydht_lib.Dht.Operations.Searching.{Event, run, HasIds, find_node_lem}
use rustydht_lib.Dht.Operations.Ending.{IsKnown, take_replies, search_ends}
use rustydht_lib.Dht.Operations.PeersSearching
use rustydht_lib.Dht.Operations.PeersSearching.{all_responders, all_peers, get_peers_search}
use rustydht_lib.Dht.Operations.Results.{responder_distance, announce_targets_lem}
use rustydht_lib.Storage.Buckets
use rustydht_lib.Prelude.Bits.{leading_zeros}
use rustydht_lib.Storage.Sort.Insertion
use rustydht_lib.Tests.Data.{
  local_address, id_of, id_of-IsId, id_from, id_from-IsId, local_ip, node_of, seen_at,
}
use rustydht_lib.Tests.Nodes.{world, node, node-IsDht, clock, packet}

abbrev ping : RequestSpecific
ping = RequestSpecific.ping_request (record { requester_id = id_of 2 })

pinger-IsId : IsId (request_author ping)
unfolding request_author
pinger-IsId = id_of-IsId 2 (omega arith)

expected : sender_matches (some (id_of 1)) (some node.our_id) ≡ true
unfolding sender_matches id_eq bytes_eq
expected = refl

request_answered_example :
    (h : Handled world) × (reply : Sent) × (t : DhtSocket) × (accept_single_packet world node clock
        (packet (MessageType.request ping))
        (record { ip = v4 local_ip; port = 6881 })
      ≡ some h)
    × (h.result ≡ ok (some reply))
    × (reply.addr ≡ record { ip = v4 local_ip; port = 6881 })
    × (incoming_single
          (send new
            (packet (MessageType.request ping))
            (record { ip = v4 local_ip; port = 6882 })
            (some (id_of 1))
            5
            77).1
          (ok reply.packet)
          (record { ip = v4 local_ip; port = 6882 })
        ≡ ok t)
    × (t.responses ≡ new.responses ++ (77, reply.packet) ∷ [])
request_answered_example =
    request_answered world node clock new (packet (MessageType.request ping)) ping local_ip local_ip
      6882 6881 (some (id_of 1)) 5 77 node-IsDht refl pinger-IsId refl expected

abbrev events : List Event
events =
    Event.round (seen_at 128 1 ∷ seen_at 192 2 ∷ [])
    ∷ Event.reply (λ i. 7 + i)
        (ok (
          packet (
            MessageType.response (
              ResponseSpecific.find_node_response
                (record { responder_id = id_from 128; nodes = node_of 64 ∷ node_of 128 ∷ [] })))))
    ∷ Event.reply (λ i. 8) (err timeout_error)
    ∷ Event.round []
    ∷ []

events-HasIds : All HasIds events
unfolding nodes_found
events-HasIds = (
  (id_from-IsId 128 (omega arith), (id_from-IsId 192 (omega arith), tt)),
  ((id_from-IsId 64 (omega arith), (id_from-IsId 128 (omega arith), tt)), (tt, (tt, tt))),
)

find_node_example :
    (s : Search) × (nearest : List NodeWrapper) × (others : List NodeWrapper) × (run insertion_sort
        (id_of 3)
        (id_of-IsId 3 (omega arith))
        (start insertion_sort (id_of 3))
        events
      ≡ some s)
    × IsPart (id_of 3) s.buckets
    × (find_node_result insertion_sort s (id_of 3) ≡ map (λ w. w.node) nearest)
    × IsSortedBy (distance insertion_sort (id_of 3)) (nearest ++ others)
    × ((p : NodeWrapper → Bool) → count_if p (nearest ++ others) ≡ total p s.buckets.buckets)
    × (length nearest ≡ min 8 (total (λ w. true) s.buckets.buckets))
find_node_example =
    find_node_lem insertion_sort (id_of 3) (id_of-IsId 3 (omega arith)) events events-HasIds

abbrev repliers : List GetPeersResponder
repliers =
    record { node = node_of 128; token = 1 ∷ [] }
    ∷ record { node = node_of 64; token = 2 ∷ [] }
    ∷ []

announce_targets_example :
    (rest : List GetPeersResponder) × (length
        (announce_targets (get_peers_result insertion_sort (id_of 7) [] repliers))
      ≡ min 8 (length repliers))
    × IsSortedBy
        (responder_distance (id_of 7))
        (announce_targets (get_peers_result insertion_sort (id_of 7) [] repliers) ++ rest)
    × ((p : GetPeersResponder → Bool)
        → count_if p
            (announce_targets (get_peers_result insertion_sort (id_of 7) [] repliers) ++ rest)
          ≡ count_if p repliers)
announce_targets_example =
    announce_targets_lem insertion_sort (id_of 7) [] repliers (id_of-IsId 7 (omega arith))
      (id_from-IsId 128 (omega arith), (id_from-IsId 64 (omega arith), tt))

-- A search whose first round asks two nodes.
abbrev table : List NodeWrapper
table = seen_at 128 1 ∷ seen_at 192 2 ∷ []

abbrev asking : Search
asking = record {
  buckets = record { our_id = id_of 3; buckets = table ∷ []; k = 8 };
  best_ids = id_from 128 ∷ id_from 192 ∷ [];
}

asked :
    find_node_round insertion_sort (start insertion_sort (id_of 3)) (id_of 3) table
    ≡ some (asking, Turn.ask table)
unfolding find_node_round seed add_new decide is_empty ids_eq start Buckets.new Buckets.contains
    Buckets.any_has_id Buckets.has_id Buckets.dest_bucket Buckets.add Buckets.dest_idx
    Buckets.dest_idx_for_id Buckets.handle_bucket_overflow Buckets.overflow_loop
    Buckets.overflow_step Buckets.get_nearest_nodes Buckets.distance_cmp Buckets.is_excluded
    Buckets.values Buckets.values_of Buckets.retain_list node_wrapper_bucketable Insertion.place
    Insertion.insert Insertion.sort insertion_sort id_eq bytes_eq matching_prefix_bits prefix_bits
    xor xor_bytes leading_zeros cmp_bytes Buckets.push_at
asked = refl

abbrev answers : List ((ℕ → ℕ) × Result Message)
answers =
    (
      λ i. 9 + i,
      ok (
          packet (
            MessageType.response (
              ResponseSpecific.find_node_response
                (record { responder_id = id_from 128; nodes = node_of 192 ∷ node_of 128 ∷ [] })))),
    )
    ∷ (λ i. 10, err timeout_error)
    ∷ []

answers-IsKnown : All (IsKnown insertion_sort (id_of 3) asking) answers
unfolding nodes_found Buckets.contains Buckets.any_has_id Buckets.has_id Buckets.dest_bucket
    Buckets.dest_idx_for_id node_wrapper_bucketable id_eq bytes_eq matching_prefix_bits prefix_bits
    xor xor_bytes leading_zeros
answers-IsKnown = ((refl, (refl, tt)), (tt, tt))

table_known : All (λ w. Buckets.contains asking.buckets w.node.id ≡ true) table
unfolding Buckets.contains Buckets.any_has_id Buckets.has_id Buckets.dest_bucket
    Buckets.dest_idx_for_id node_wrapper_bucketable id_eq bytes_eq matching_prefix_bits prefix_bits
    xor xor_bytes leading_zeros
table_known = (refl, (refl, tt))

search_ends_example :
    (table ≡ Buckets.get_nearest_nodes insertion_sort asking.buckets (id_of 3) none)
    × ¬ (ids_of table ≡ [])
    × (take_replies insertion_sort (id_of 3) asking answers ≡ some asking)
    × (find_node_round insertion_sort asking (id_of 3) table ≡ some (asking, Turn.finish))
unfolding start
search_ends_example =
    search_ends insertion_sort (id_of 3) (start insertion_sort (id_of 3)) asking table table table
      answers asked answers-IsKnown table_known

-- Two nodes answer with the same peer, and one with a node.
abbrev peers_reply : GetPeersResponseValues → Result Message
peers_reply values = ok (
    packet (
      MessageType.response (
        ResponseSpecific.get_peers_response
          (record { responder_id = id_from 128; token = 1 ∷ []; values = values }))))

abbrev peers_events : List PeersSearching.Event
peers_events =
    PeersSearching.Event.round table
    ∷ PeersSearching.Event.reply (λ i. 7 + i) (node_of 128)
        (peers_reply (GetPeersResponseValues.peers (local_address ∷ [])))
    ∷ PeersSearching.Event.reply (λ i. 8) (node_of 192)
        (peers_reply (GetPeersResponseValues.peers (local_address ∷ [])))
    ∷ PeersSearching.Event.reply (λ i. 9) (node_of 64)
        (peers_reply (GetPeersResponseValues.nodes (node_of 32 ∷ [])))
    ∷ PeersSearching.Event.reply (λ i. 9) (node_of 32) (err timeout_error)
    ∷ []

peers_events-HasIds : All PeersSearching.HasIds peers_events
peers_events-HasIds = (
  ((id_from-IsId 128 (omega arith), (id_from-IsId 192 (omega arith), tt)), tt),
  ((tt, tt), ((tt, tt), ((tt, (id_from-IsId 32 (omega arith), tt)), ((tt, tt), tt)))),
)

get_peers_search_example :
    (s : PeersSearch) × (PeersSearching.run insertion_sort
        (id_of 3)
        (id_of-IsId 3 (omega arith))
        (start_peers insertion_sort (id_of 3))
        peers_events
      ≡ some s)
    × IsPart (id_of 3) s.search.buckets
    × (s.responders ≡ all_responders peers_events)
    × ((q : SocketAddr)
        → count_if
            (sockaddr_eq q)
            (get_peers_result insertion_sort (id_of 3) s.unique_peers s.responders).peers
          ≡ min 1 (count_if (sockaddr_eq q) (all_peers peers_events)))
get_peers_search_example =
    get_peers_search insertion_sort (id_of 3) (id_of-IsId 3 (omega arith)) insertion_sort
      peers_events peers_events-HasIds
