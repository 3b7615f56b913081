-- ===== src/Tests/Nodes.antt =====
-- src/dht: the theorems on a whole node, which runs on the list cache, the insertion sort, and a
-- checksum that is a sum.
use rustydht_lib.Prelude.{
  leb, Bool, ℕ, ◌+◌, ◌≡◌, refl, ◌⊎◌, true, false, ◌||◌, Option, none, some, List, [], ◌∷◌, arith,
  replicate, take,
}
use rustydht_lib.Common.Consensus
use rustydht_lib.Common.Consensus.Updates.{new-IsConsensus}
use rustydht_lib.Common.Error.{ok, err, general_error}
use rustydht_lib.Common.Id.{NodeId, IsId, bytes_eq}
use rustydht_lib.Common.Magic.{is_valid_for_ip, Draws, be_bytes4}
use rustydht_lib.Common.Net.{Ipv4Addr, v4, SocketAddr}
use rustydht_lib.Packets.Message.{
  Message, MessageType, RequestSpecific, ResponseSpecific, GetPeersRequestArguments,
  AnnouncePeerRequestArguments, request_author, response_author,
}
use rustydht_lib.Storage.NodeBucketStorage
use rustydht_lib.Storage.NodeBucketStorage.Pruning.{new-IsStorage}
use rustydht_lib.Storage.PeerStorage.{get_peers}
use rustydht_lib.Storage.PeerStorage.Swarms.{is_listed}
use rustydht_lib.Storage.Sort.Insertion.{insertion_sort}
use rustydht_lib.Dht.Settings.{default}
use rustydht_lib.Dht.State.{
  World, DhtState, Clock, calculate_token, rotate_token_secrets, ip4_maintenance,
}
use rustydht_lib.Dht.Handlers.{
  Sent, Handled, to_secs, announced, is_token_valid, accept_single_packet,
}
use rustydht_lib.Dht.Invariant.{IsDht, IsDraws, Fits, ip4_maintenance_lem}
use rustydht_lib.Dht.Replies.{IsReply}
use rustydht_lib.Dht.Accepting.{is_refused, accept_request_lem}
use rustydht_lib.Dht.Tokens.{given_token, token_lem, announced_lem}
use rustydht_lib.Dht.Requests.{see_response, handle_reply}
use rustydht_lib.Dht.Responses.{IsSame, handle_reply_lem}
use rustydht_lib.Dht.Maintenance.{Seeds}
use rustydht_lib.Dht.Maintenance
use rustydht_lib.Dht.Runs.{Step, here, next, Reach-IsDht, IsSeeds}
use rustydht_lib.Dht.Builder.{default_world, new_builder, build}
use rustydht_lib.Dht.Loop.{build_lem}
use rustydht_lib.Tests.Votes.{voted, voted-IsConsensus}
use rustydht_lib.Tests.Data.{
  id_of, id_of-IsId, All-zeros, local_ip, local_address, node_of, id_from-IsId,
}
use rustydht_lib.Tests.Peers.{swarms, torrents, peers, peers-IsPeerStorage}

abbrev pub sum : List ℕ → ℕ
sum [] = 0
sum (x ∷ xs) = x + sum xs

abbrev pub first_ones : ℕ → List NodeId → ℕ → List NodeId
first_ones draw hashes n = take n hashes

abbrev pub world : World
world = default_world insertion_sort swarms torrents sum first_ones

abbrev pub node : DhtState world
node = record {
  ip4_source = Consensus.new 2 10;
  our_id = id_of 1;
  buckets = NodeBucketStorage.new (id_of 1) 8;
  peer_storage = peers;
  token_secret = 1 ∷ 2 ∷ [];
  old_token_secret = 3 ∷ 4 ∷ [];
  settings = default;
  subscribers = [];
}

pub node-IsDht : IsDht world node
unfolding default to_secs
node-IsDht = record {
  is_id = id_of-IsId 1 (omega arith);
  table =
      (new-IsStorage (id_of 1) 8 (NodeBucketStorage.new (id_of 1) 8)
        (id_of-IsId 1 (omega arith))).0;
  source = new-IsConsensus 2 10 (omega arith) (omega arith) (omega arith);
  peers = peers-IsPeerStorage;
  interval = refl;
}

abbrev pub clock : Clock
clock = record {
  updated = 1000000000000;
  wrapped = 1000000000001;
  handled = 1000000000002;
  draw = 0;
}

abbrev pub packet : MessageType → Message
packet t = record {
  transaction_id = 9 ∷ 9 ∷ [];
  version = none;
  requester_ip = some local_address;
  message_type = t;
  read_only = none;
}

abbrev find_node : RequestSpecific
find_node = RequestSpecific.find_node_request (record { target = id_of 3; requester_id = id_of 2 })

asker-IsId : IsId (request_author find_node)
unfolding request_author
asker-IsId = id_of-IsId 2 (omega arith)

accept_request_example :
    (h : Handled world) × (accept_single_packet world node clock
        (packet (MessageType.request find_node))
        (record { ip = v4 local_ip; port = 6881 })
      ≡ some h)
    × IsDht world h.state
    × (h.state.our_id ≡ node.our_id)
    × ((is_refused world node (record { ip = v4 local_ip; port = 6881 }) find_node ≡ false)
          × ((sent : Sent) × (h.result ≡ ok (some sent))
              × IsReply node.our_id
                  (packet (MessageType.request find_node))
                  (record { ip = v4 local_ip; port = 6881 })
                  find_node
                  sent)
        ⊎ (is_refused world node (record { ip = v4 local_ip; port = 6881 }) find_node ≡ true)
          × (h.result ≡ ok none))
accept_request_example =
    accept_request_lem world node clock (packet (MessageType.request find_node)) local_ip 6881
      find_node node-IsDht refl asker-IsId

abbrev asked : GetPeersRequestArguments
asked = record { info_hash = id_of 7; requester_id = id_of 2 }

token_example :
    (h : Handled world) × (sent : Sent) × (token : List ℕ) × (accept_single_packet world node clock
        (packet (MessageType.request (RequestSpecific.get_peers_request asked)))
        (record { ip = v4 local_ip; port = 6881 })
      ≡ some h)
    × (h.result ≡ ok (some sent))
    × (given_token sent.packet.message_type ≡ some token)
    × (is_token_valid world h.state (record { ip = v4 local_ip; port = 6882 }) token ≡ true)
    × (is_token_valid world
          (rotate_token_secrets world h.state (5 ∷ []))
          (record { ip = v4 local_ip; port = 6882 })
          token
        ≡ true)
    × (is_token_valid world
          (rotate_token_secrets world (rotate_token_secrets world h.state (5 ∷ [])) (6 ∷ []))
          (record { ip = v4 local_ip; port = 6882 })
          token
        ≡ (bytes_eq token
              (calculate_token world.checksum (record { ip = v4 local_ip; port = 6882 }) (6 ∷ []))
            || bytes_eq token (
                calculate_token world.checksum
                  (record { ip = v4 local_ip; port = 6882 })
                  (5 ∷ []))))
token_example =
    token_lem world node clock
      (packet (MessageType.request (RequestSpecific.get_peers_request asked))) local_ip 6881 6882
      asked (5 ∷ []) (6 ∷ []) node-IsDht refl (id_of-IsId 2 (omega arith))

abbrev announcement : AnnouncePeerRequestArguments
announcement = record {
  requester_id = id_of 2;
  info_hash = id_of 7;
  port = 80;
  implied_port = none;
  token = calculate_token sum local_address (1 ∷ 2 ∷ []);
}

announcement_valid : is_token_valid world node local_address announcement.token ≡ true
unfolding is_token_valid calculate_token bytes_eq be_bytes4
announcement_valid = refl

announced_example :
    (h : Handled world) × (accept_single_packet world node clock
        (packet (MessageType.request (RequestSpecific.announce_peer_request announcement)))
        (record { ip = v4 local_ip; port = 6881 })
      ≡ some h)
    × (is_listed
          (announced
            (record { ip = v4 local_ip; port = 6881 })
            announcement.implied_port
            announcement.port)
          (get_peers world.swarms world.torrents h.state.peer_storage announcement.info_hash
            (some 4)).0
        ≡ true)
announced_example =
    announced_lem world node clock
      (packet (MessageType.request (RequestSpecific.announce_peer_request announcement))) local_ip
      6881 4 announcement node-IsDht refl (id_of-IsId 2 (omega arith)) announcement_valid
      (omega arith)

abbrev found : ResponseSpecific
found =
    ResponseSpecific.find_node_response (record { responder_id = id_of 2; nodes = node_of 4 ∷ [] })

finder-IsId : IsId (response_author found)
unfolding response_author
finder-IsId = id_of-IsId 2 (omega arith)

handle_reply_example :
    (s' : DhtState world) × (handle_reply world node
        (λ i. clock)
        (record { ip = v4 local_ip; port = 6881 })
        (packet (MessageType.response found))
      ≡ some (ok s'))
    × IsDht world s'
    × IsSame world node s'
    × ((is_valid_for_ip world.checksum (response_author found) (v4 local_ip) ≡ some true)
        ⊎ (see_response world node (λ i. clock) found ≡ some s'))
handle_reply_example =
    handle_reply_lem world node (λ i. clock) local_ip 6881 (packet (MessageType.response found))
      found node-IsDht refl finder-IsId ((id_from-IsId 4 (omega arith), (local_ip, refl)), tt)

abbrev draws : Draws
draws = record { seed = 3; low = 5; middle = replicate 16 0 }

draws-IsDraws : IsDraws draws
draws-IsDraws = (omega arith, omega arith, refl, All-zeros 16)

-- A node that got votes for its address.
abbrev voted_node : DhtState world
voted_node = record node { ip4_source = voted }

voted_node-IsDht : IsDht world voted_node
voted_node-IsDht = record {
  is_id = node-IsDht.is_id;
  table = node-IsDht.table;
  source = voted-IsConsensus;
  peers = node-IsDht.peers;
  interval = node-IsDht.interval;
}

ip4_maintenance_example :
    (s' : DhtState world) × (best : Option Ipv4Addr) × (ip4_maintenance world voted_node draws
      ≡ some s')
    × (s'.ip4_source ≡ world.source.decay voted)
    × (world.source.get_best_ipv4 s'.ip4_source ≡ some best)
    × IsDht world s'
    × Fits world s'.our_id best
ip4_maintenance_example = ip4_maintenance_lem world voted_node draws voted_node-IsDht draws-IsDraws

abbrev seeds : Seeds
seeds = record { draws = draws; random_id = id_of 5; secret = 1 ∷ [] }

seeds-IsSeeds : IsSeeds seeds
seeds-IsSeeds = (draws-IsDraws, id_of-IsId 5 (omega arith))

-- The system binds a socket to any port but the first 1024.
abbrev binds : SocketAddr → Bool
binds addr = leb 1024 addr.port

build_example :
    (binds (record { ip = v4 (record { a = 0; b = 0; c = 0; d = 0 }); port = 6881 }) ≡ true)
      × ((s : DhtState (default_world insertion_sort swarms torrents sum first_ones)) × (build
              insertion_sort swarms torrents sum first_ones binds
              (new_builder insertion_sort swarms torrents sum first_ones)
              seeds
            ≡ some (ok s))
          × IsDht (default_world insertion_sort swarms torrents sum first_ones) s)
    ⊎ (binds (record { ip = v4 (record { a = 0; b = 0; c = 0; d = 0 }); port = 6881 }) ≡ false)
      × (build insertion_sort swarms torrents sum first_ones binds
            (new_builder insertion_sort swarms torrents sum first_ones)
            seeds
          ≡ some (err general_error))
build_example = build_lem insertion_sort swarms torrents sum first_ones seeds binds seeds-IsSeeds

abbrev pruned : DhtState world
pruned = Maintenance.buddy_prune world node 5 6

abbrev rotated : DhtState world
rotated = rotate_token_secrets world pruned (7 ∷ [])

reach_example : IsDht world (Maintenance.get_info_hashes world rotated (some 4)).1
reach_example =
    Reach-IsDht world
      (next (next (next here (Step.prune node 5 6)) (Step.rotate pruned (7 ∷ [])))
        (Step.list rotated (some 4)))
      node-IsDht
