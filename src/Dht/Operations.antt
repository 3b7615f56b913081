-- ===== src/Dht/Operations.antt =====
-- src/dht/operations.rs: the searches. A search is a sequence of rounds, each of which asks the
-- nearest nodes, and of their replies, in the order that they come in; the requests themselves, the
-- pauses and the timeout are tokio's. `none` is a panic.
pub mod Searching
pub mod Results
pub mod Ending
pub mod Inserting
pub mod PeersSearching
use rustydht_lib.Prelude.{
  ℕ, suc, Ordering, Bool, true, false, ◌&&◌, not, Option, none, some, is_none, List, [], ◌∷◌, ◌++◌,
  map, leb, if◌then◌else◌, length, take,
}
use rustydht_lib.Prelude.Maybe.{◌>>=◌}
use rustydht_lib.Common.Error.{Result, ok, err}
use rustydht_lib.Common.Id.{NodeId, id_eq, xor, cmp_bytes}
use rustydht_lib.Common.Net.{SocketAddr, sockaddr_eq, Node}
use rustydht_lib.Packets.Message.{
  Message, MessageType, ResponseSpecific, GetPeersResponseValues, GetPeersResponseArguments,
}
use rustydht_lib.Packets.Builder.{MessageBuilder, build, new_announce_peer_request, or_else}
use rustydht_lib.Packets.Builder.Setters
use rustydht_lib.Storage.Buckets.{Buckets}
use rustydht_lib.Storage.Buckets
use rustydht_lib.Storage.NodeWrapper.{NodeWrapper, wrap, node_wrapper_bucketable}
use rustydht_lib.Storage.Sort.{UnstableSort}

-- `best_ids == best_ids_current`
unfoldable pub ids_eq : List NodeId → List NodeId → Bool
ids_eq [] [] = true
ids_eq [] (y ∷ ys) = false
ids_eq (x ∷ xs) [] = false
ids_eq (x ∷ xs) (y ∷ ys) = id_eq x y && ids_eq xs ys

abbrev pub ids_of : List NodeWrapper → List NodeId
ids_of nearest = map (λ nw. nw.node.id) nearest

pub record Search : Type 0 where
  pub buckets : Buckets NodeWrapper
  pub best_ids : List NodeId

-- What a round does: it waits for nodes, ends the search, or asks these nodes.
pub data Turn : Type 0 where
  wait finish : Turn
  ask : List NodeWrapper → Turn

pub record GetPeersResponder : Type 0 where
  pub node : Node
  pub token : List ℕ

pub record GetPeersResult : Type 0 where
  pub info_hash : NodeId
  pub peers : List SocketAddr
  pub responders : List GetPeersResponder

pub record PeersSearch : Type 0 where
  pub search : Search
  pub unique_peers : List SocketAddr
  pub responders : List GetPeersResponder

-- `HashSet::insert`. The order of the set is not specified.
unfoldable pub insert_peer : List SocketAddr → SocketAddr → List SocketAddr
insert_peer [] peer = peer ∷ []
insert_peer (p ∷ ps) peer = if sockaddr_eq p peer then p ∷ ps else p ∷ insert_peer ps peer

unfoldable pub insert_peers : List SocketAddr → List SocketAddr → List SocketAddr
unfolding insert_peer
insert_peers peers [] = peers
insert_peers peers (p ∷ ps) = insert_peers (insert_peer peers p) ps

unfoldable pub responder_cmp : NodeId → GetPeersResponder → GetPeersResponder → Ordering
responder_cmp info_hash a b =
    cmp_bytes (xor a.node.id info_hash).bytes (xor b.node.id info_hash).bytes

unfoldable pub get_peers_result :
    UnstableSort GetPeersResponder
    → NodeId
    → List SocketAddr
    → List GetPeersResponder
    → GetPeersResult
unfolding responder_cmp
get_peers_result sort info_hash peers responders = record {
  info_hash = info_hash;
  peers = peers;
  responders = sort.sort_by (responder_cmp info_hash) responders;
}

-- The request that `announce_peer` sends to a responder, and to which ones it does.
unfoldable pub announce_packet :
    NodeId → Bool → NodeId → Option ℕ → GetPeersResponder → List ℕ → Option (Result Message)
announce_packet our_id read_only info_hash port responder random =
    build
      (Setters.token
        (Setters.implied_port
          (Setters.port
            (Setters.target
              (Setters.read_only (Setters.sender_id new_announce_peer_request our_id) read_only)
              info_hash)
            (or_else port 0))
          (is_none port))
        responder.token)
      random

unfoldable pub announce_targets : GetPeersResult → List GetPeersResponder
announce_targets result = take 8 result.responders

-- The decision of a round on the nearest nodes, which must be more than `few`.
unfoldable pub decide : Search → List NodeWrapper → Bool → Search × Turn
decide s nearest few =
    if few
    then (s, wait)
    else if ids_eq s.best_ids (ids_of nearest)
    then (s, finish)
    else (record s { best_ids = ids_of nearest }, ask nearest)

unfoldable pub is_empty : List NodeWrapper → Bool
is_empty [] = true
is_empty (w ∷ ws) = false

unfoldable pub nodes_found : MessageType → List Node
nodes_found (MessageType.response (ResponseSpecific.find_node_response args)) = args.nodes
nodes_found _ = []

module _ (sort : UnstableSort NodeWrapper) where
  unfoldable pub start : NodeId → Search
  start target = record { buckets = Buckets.new target 8; best_ids = [] }

  unfoldable pub start_peers : NodeId → PeersSearch
  unfolding start
  start_peers info_hash = record { search = start info_hash; unique_peers = []; responders = [] }

  -- `if !buckets.contains(..) { buckets.add(.., None) }`
  unfoldable pub add_new : Buckets NodeWrapper → NodeWrapper → Option (Buckets NodeWrapper)
  add_new b w =
      if Buckets.contains b w.node.id
      then some b
      else (do (b', chumps) ← Buckets.add sort b w none; some b')

  -- The nodes of the DHT's own table.
  unfoldable pub seed : Buckets NodeWrapper → List NodeWrapper → Option (Buckets NodeWrapper)
  unfolding add_new
  seed b [] = some b
  seed b (w ∷ ws) = do b' ← add_new b w; seed b' ws

  -- The nodes of a reply. `now i` is what the clock gives for the i-th.
  unfoldable pub add_nodes :
      Buckets NodeWrapper → (ℕ → ℕ) → List Node → Option (Buckets NodeWrapper)
  unfolding add_new
  add_nodes b now [] = some b
  add_nodes b now (n ∷ ns) = do b' ← add_new b (wrap n (now 0)); add_nodes b' (λ i. now (suc i)) ns

  unfoldable pub find_node_round : Search → NodeId → List NodeWrapper → Option (Search × Turn)
  unfolding seed decide is_empty
  find_node_round s target dht_nodes = do
    buckets ← seed s.buckets dht_nodes
    some (
        decide (record s { buckets = buckets }) (Buckets.get_nearest_nodes sort buckets target none)
          (is_empty (Buckets.get_nearest_nodes sort buckets target none)))

  -- A reply, or the error in its place.
  unfoldable pub find_node_reply : Search → (ℕ → ℕ) → Result Message → Option Search
  unfolding add_nodes nodes_found
  find_node_reply s now (err e) = some s
  find_node_reply s now (ok message) = do
    buckets ← add_nodes s.buckets now (nodes_found message.message_type)
    some (record s { buckets = buckets })

  unfoldable pub find_node_result : Search → NodeId → List Node
  find_node_result s target =
      map (λ nw. nw.node) (Buckets.get_nearest_nodes sort s.buckets target none)

  unfoldable pub get_peers_round :
      PeersSearch → NodeId → List NodeWrapper → Option (PeersSearch × Turn)
  unfolding seed decide
  get_peers_round s info_hash dht_nodes = do
    buckets ← seed s.search.buckets dht_nodes
    let nearest = Buckets.get_nearest_nodes sort buckets info_hash none
    let next = decide (record (s.search) { buckets = buckets }) nearest (leb (length nearest) 5)
    some (record s { search = next.0 }, next.1)

  unfoldable pub take_values : PeersSearch → (ℕ → ℕ) → GetPeersResponseValues → Option PeersSearch
  unfolding add_nodes insert_peers
  take_values s now (GetPeersResponseValues.nodes n) = do
    buckets ← add_nodes s.search.buckets now n
    some (record s { search = record (s.search) { buckets = buckets } })
  take_values s now (GetPeersResponseValues.peers p) =
      some (record s { unique_peers = insert_peers s.unique_peers p })

  -- A reply of the node that was asked.
  unfoldable pub peers_reply_as : PeersSearch → (ℕ → ℕ) → Node → MessageType → Option PeersSearch
  unfolding take_values
  peers_reply_as s now node (MessageType.response (ResponseSpecific.get_peers_response args)) =
      take_values
        (record s { responders = s.responders ++ record { node = node; token = args.token } ∷ [] })
        now args.values
  peers_reply_as s now node _ = some s

  unfoldable pub get_peers_reply :
      PeersSearch → (ℕ → ℕ) → Node → Result Message → Option PeersSearch
  unfolding peers_reply_as
  get_peers_reply s now node (err e) = some s
  get_peers_reply s now node (ok message) = peers_reply_as s now node message.message_type
