-- ===== src/Dht/Operations/PeersSearching.antt =====
-- src/dht/operations.rs: what a search for peers collects.
use rustydht_lib.Prelude.{
  ℕ, ◌+◌, ◌≡◌, refl, sym, ap, ◌∙◌, Option, some, List, [], ◌∷◌, ◌++◌, arith, All, count_if,
  count_if-append, min,
}
use mathlib.Core.List.{append_assoc, append-nil}
use rustydht_lib.Prelude.Maybe.{◌>>=◌}
use rustydht_lib.Common.Error.{Result, ok, err}
use rustydht_lib.Common.Id.{NodeId, IsId}
use rustydht_lib.Common.Net.{Node, SocketAddr, sockaddr_eq}
use rustydht_lib.Packets.Message.{Message, MessageType, ResponseSpecific, GetPeersResponseValues}
use rustydht_lib.Storage.Sort.{UnstableSort}
use rustydht_lib.Storage.Buckets
use rustydht_lib.Storage.Buckets.Invariant.{new-IsValid}
use rustydht_lib.Storage.NodeWrapper.{NodeWrapper, node_wrapper_bucketable}
use rustydht_lib.Storage.NodeBucketStorage.Invariant.{IsPart}
use rustydht_lib.Dht.Operations.{
  PeersSearch, GetPeersResponder, insert_peers, start, start_peers, get_peers_round, take_values,
  peers_reply_as, get_peers_reply, get_peers_result,
}
use rustydht_lib.Dht.Operations.Inserting.{count-insert_peers}
use rustydht_lib.Dht.Operations.Searching.{IsList, seed-IsList, add_nodes-IsList, decide-buckets}

-- What happens in a search: a round, with the nodes of the DHT's table, or the reply of a node.
pub data Event : Type 0 where
  round : List NodeWrapper → Event
  reply : (ℕ → ℕ) → Node → Result Message → Event

abbrev peers_in : GetPeersResponseValues → List SocketAddr
peers_in (GetPeersResponseValues.peers p) = p
peers_in (GetPeersResponseValues.nodes n) = []

abbrev nodes_in : GetPeersResponseValues → List Node
nodes_in (GetPeersResponseValues.peers p) = []
nodes_in (GetPeersResponseValues.nodes n) = n

-- The responder, the peers and the nodes that a reply brings.
abbrev responder_of : Node → MessageType → List GetPeersResponder
responder_of node (MessageType.response (ResponseSpecific.get_peers_response args)) =
    record { node = node; token = args.token } ∷ []
responder_of node _ = []

abbrev peers_of : MessageType → List SocketAddr
peers_of (MessageType.response (ResponseSpecific.get_peers_response args)) = peers_in args.values
peers_of _ = []

abbrev nodes_of : MessageType → List Node
nodes_of (MessageType.response (ResponseSpecific.get_peers_response args)) = nodes_in args.values
nodes_of _ = []

abbrev responders_at : Event → List GetPeersResponder
responders_at (reply now node (ok m)) = responder_of node m.message_type
responders_at _ = []

abbrev peers_at : Event → List SocketAddr
peers_at (reply now node (ok m)) = peers_of m.message_type
peers_at _ = []

abbrev nodes_at : Event → List Node
nodes_at (reply now node (ok m)) = nodes_of m.message_type
nodes_at _ = []

abbrev pub all_responders : List Event → List GetPeersResponder
all_responders [] = []
all_responders (e ∷ es) = responders_at e ++ all_responders es

abbrev pub all_peers : List Event → List SocketAddr
all_peers [] = []
all_peers (e ∷ es) = peers_at e ++ all_peers es

abbrev table_at : Event → List NodeWrapper
table_at (round ws) = ws
table_at (reply now node r) = []

-- The ids that come with an event are ids.
abbrev pub HasIds : Event → Type 0
HasIds e = All (λ w. IsId w.node.id) (table_at e) × All (λ n. IsId n.id) (nodes_at e)

-- From one state to another the search gathered these responders and these peers.
record Gathered (info_hash : NodeId) (s : PeersSearch) (rs : List GetPeersResponder)
    (ps : List SocketAddr) (t : PeersSearch) : Type 0 where
  part : IsList info_hash t.search.buckets
  responders : t.responders ≡ s.responders ++ rs
  peers :
      (q : SocketAddr) (n : ℕ)
      → count_if (sockaddr_eq q) s.unique_peers ≡ min 1 n
      → count_if (sockaddr_eq q) t.unique_peers ≡ min 1 (n + count_if (sockaddr_eq q) ps)

-- It gathered no peers.
responders-Gathered :
    (info_hash : NodeId) (s t : PeersSearch) (rs : List GetPeersResponder)
    → IsList info_hash t.search.buckets
    → t.responders ≡ s.responders ++ rs
    → t.unique_peers ≡ s.unique_peers
    → Gathered info_hash s rs [] t
responders-Gathered info_hash s t rs part same ps = record {
  part = part;
  responders = same;
  peers = λ q n h. ap (count_if (sockaddr_eq q)) ps ∙ h ∙ ap (min 1) (omega arith);
}

both-Gathered :
    (info_hash : NodeId) (s t u : PeersSearch) (rs rs' : List GetPeersResponder)
    (ps ps' : List SocketAddr)
    → Gathered info_hash s rs ps t
    → Gathered info_hash t rs' ps' u
    → Gathered info_hash s (rs ++ rs') (ps ++ ps') u
both-Gathered info_hash s t u rs rs' ps ps' g k = record {
  part = k.part;
  responders = k.responders ∙ ap (λ z. z ++ rs') g.responders ∙ append_assoc s.responders rs rs';
  peers = λ q n h.
      k.peers q (n + count_if (sockaddr_eq q) ps) (g.peers q n h)
      ∙ ap (min 1) (omega (arith, count_if-append (sockaddr_eq q) ps ps'));
}

module _ (sort : UnstableSort NodeWrapper) (info_hash : NodeId) (h : IsId info_hash) where
  abbrev pub step : PeersSearch → Event → Option PeersSearch
  step s (round ws) = do (s', turn) ← get_peers_round sort s info_hash ws; some s'
  step s (reply now node r) = get_peers_reply sort s now node r

  abbrev pub run : PeersSearch → List Event → Option PeersSearch
  run s [] = some s
  run s (e ∷ es) = do s' ← step s e; run s' es

  none-Gathered :
      (s : PeersSearch) → IsList info_hash s.search.buckets → Gathered info_hash s [] [] s
  none-Gathered s k = responders-Gathered info_hash s s [] k (sym (append-nil s.responders)) refl

  take_values_lem :
      (s : PeersSearch) (now : ℕ → ℕ) (v : GetPeersResponseValues)
      → IsList info_hash s.search.buckets
      → All (λ n. IsId n.id) (nodes_in v)
      → (t : PeersSearch) × (take_values sort s now v ≡ some t)
        × Gathered info_hash s [] (peers_in v) t
  unfolding take_values
  take_values_lem s now (GetPeersResponseValues.peers ps) k hs = (
    record s { unique_peers = insert_peers s.unique_peers ps },
    refl,
    record {
      part = k;
      responders = sym (append-nil s.responders);
      peers = λ q n e. count-insert_peers q n s.unique_peers ps e;
    },
  )
  take_values_lem s now (GetPeersResponseValues.nodes ns) k hs =
      let p = add_nodes-IsList sort info_hash h s.search.buckets now ns k hs in
      let t : PeersSearch = record s { search = record (s.search) { buckets = p.0 } } in
      (
        t,
        rw (take_values, p.1) refl,
        responders-Gathered info_hash s t [] p.2 (sym (append-nil s.responders)) refl,
      )

  peers_reply_lem :
      (s : PeersSearch) (now : ℕ → ℕ) (node : Node) (m : MessageType)
      → IsList info_hash s.search.buckets
      → All (λ n. IsId n.id) (nodes_of m)
      → (t : PeersSearch) × (peers_reply_as sort s now node m ≡ some t)
        × Gathered info_hash s (responder_of node m) (peers_of m) t
  unfolding peers_reply_as
  peers_reply_lem s now node (MessageType.request req) k hs = (s, refl, none-Gathered s k)
  peers_reply_lem s now node (MessageType.error e) k hs = (s, refl, none-Gathered s k)
  peers_reply_lem s now node (MessageType.response (ResponseSpecific.ping_response a)) k hs =
      (s, refl, none-Gathered s k)
  peers_reply_lem s now node (MessageType.response (ResponseSpecific.find_node_response a)) k hs =
      (s, refl, none-Gathered s k)
  peers_reply_lem s now node (MessageType.response (ResponseSpecific.sample_info_hashes_response a))
        k hs =
      (s, refl, none-Gathered s k)
  peers_reply_lem s now node (MessageType.response (ResponseSpecific.get_peers_response args)) k
        hs =
      let new = record { node = node; token = args.token } ∷ [] in
      let s₁ : PeersSearch = record s { responders = s.responders ++ new } in
      let p = take_values_lem s₁ now args.values k hs in
      (
        p.0,
        p.1,
        both-Gathered info_hash s s₁ p.0 new [] [] (peers_in args.values)
            (responders-Gathered info_hash s s₁ new k refl refl) p.2,
      )

  step_lem :
      (s : PeersSearch) (e : Event)
      → IsList info_hash s.search.buckets
      → HasIds e
      → (t : PeersSearch) × (step s e ≡ some t)
        × Gathered info_hash s (responders_at e) (peers_at e) t
  unfolding get_peers_round get_peers_reply
  step_lem s (round ws) k hs =
      let p = seed-IsList sort info_hash h s.search.buckets ws k hs.0 in
      rw p.1 (
        _,
        refl,
        responders-Gathered info_hash s _ [] (rw (decide-buckets sort info_hash h _ _ _) p.2)
            (sym (append-nil s.responders)) refl,
      )
  step_lem s (reply now node (err e)) k hs = (s, refl, none-Gathered s k)
  step_lem s (reply now node (ok m)) k hs = peers_reply_lem s now node m.message_type k hs.1

  run_lem :
      (s : PeersSearch) (es : List Event)
      → IsList info_hash s.search.buckets
      → All HasIds es
      → (t : PeersSearch) × (run s es ≡ some t)
        × Gathered info_hash s (all_responders es) (all_peers es) t
  run_lem s [] k hs = (s, refl, none-Gathered s k)
  run_lem s (e ∷ es) k hs =
      let p = step_lem s e k hs.0 in
      let q = run_lem p.0 es p.2.part hs.1 in
      (
        q.0,
        ap (λ o. o >>= (λ s'. run s' es)) p.1 ∙ q.1,
        both-Gathered info_hash s p.0 q.0 (responders_at e) (all_responders es) (peers_at e)
            (all_peers es) p.2 q.2,
      )

  -- A search for peers does not panic, whatever nodes the table of the DHT has in each round and
  -- whatever is replied, in any order, with ids that are ids. Its list of nodes stays well-formed
  -- around the torrent's id, the responders are those of all get_peers responses, in the order that
  -- they came in, with the tokens of theirs, and an address is among the peers of the result once if
  -- any response has it, and else not at all.
  pub get_peers_search :
      (sort_responders : UnstableSort GetPeersResponder) (es : List Event)
      → All HasIds es
      → (s : PeersSearch) × (run (start_peers sort info_hash) es ≡ some s)
        × IsPart info_hash s.search.buckets
        × (s.responders ≡ all_responders es)
        × ((q : SocketAddr)
            → count_if
                (sockaddr_eq q)
                (get_peers_result sort_responders info_hash s.unique_peers s.responders).peers
              ≡ min 1 (count_if (sockaddr_eq q) (all_peers es)))
  unfolding start_peers start get_peers_result Buckets.new
  get_peers_search sort_responders es hs =
      let p =
        run_lem (start_peers sort info_hash) es
          (record {
            part = record { valid = new-IsValid info_hash 8; own = refl; ids = refl };
            size = refl;
          })
          hs in
      (p.0, p.1, p.2.part.part, p.2.responders, λ q. p.2.peers q 0 refl ∙ ap (min 1) (omega arith))
