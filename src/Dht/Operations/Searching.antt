-- ===== src/Dht/Operations/Searching.antt =====
-- src/dht/operations.rs: the list of nodes that a search keeps.
use rustydht_lib.Prelude.{
  ℕ, suc, min, length, true, ◌≡◌, refl, ap, ◌∙◌, inl, inr, Bool, false, Option, none, some, List,
  [], ◌∷◌, ◌++◌, map, arith, Bool-cases, All, count_if, All-of_count_if, All-map,
}
use rustydht_lib.Prelude.Maybe.{◌>>=◌}
use rustydht_lib.Common.Error.{Result, ok, err}
use rustydht_lib.Common.Id.{NodeId, IsId}
use rustydht_lib.Common.Net.{Node}
use rustydht_lib.Packets.Message.{Message}
use rustydht_lib.Storage.Sort.{UnstableSort, IsSortedBy}
use rustydht_lib.Storage.Vec.{total}
use rustydht_lib.Storage.Buckets.{Buckets, values, is_excluded}
use rustydht_lib.Storage.Buckets
use rustydht_lib.Storage.Buckets.Invariant.{new-IsValid}
use rustydht_lib.Storage.Buckets.Nearest.{values_lem, distance, get_nearest_nodes_lem}
use rustydht_lib.Storage.NodeWrapper.{NodeWrapper, wrap, node_wrapper_bucketable}
use rustydht_lib.Storage.NodeBucketStorage.Invariant.{
  IsPart, bad, bad_no, bad-IsId, add_drop-IsPart,
}
use rustydht_lib.Dht.Operations.{
  Search, start, add_new, seed, add_nodes, decide, find_node_round, nodes_found, find_node_reply,
  find_node_result,
}

-- What happens in a search: a round, with the nodes of the DHT's table, or a reply.
pub data Event : Type 0 where
  round : List NodeWrapper → Event
  reply : (ℕ → ℕ) → Result Message → Event

abbrev pub reply_nodes : Result Message → List Node
reply_nodes (ok m) = nodes_found m.message_type
reply_nodes (err e) = []

-- The ids that come with it are ids.
abbrev pub HasIds : Event → Type 0
HasIds (round ws) = All (λ w. IsId w.node.id) ws
HasIds (reply now r) = All (λ n. IsId n.id) (reply_nodes r)

-- The list of a search around an id: 8 nodes to a bucket.
pub record IsList (target : NodeId) (b : Buckets NodeWrapper) : Type 0 where
  pub part : IsPart target b
  pub size : b.k ≡ 8

module _ (sort : UnstableSort NodeWrapper) (target : NodeId) (h : IsId target) where
  abbrev pub step : Search → Event → Option Search
  step s (round ws) = do (s', turn) ← find_node_round sort s target ws; some s'
  step s (reply now r) = find_node_reply sort s now r

  abbrev pub run : Search → List Event → Option Search
  run s [] = some s
  run s (e ∷ es) = do s' ← step s e; run s' es

  add_new-IsList :
      (b : Buckets NodeWrapper) (w : NodeWrapper)
      → IsList target b
      → IsId w.node.id
      → (b' : Buckets NodeWrapper) × (add_new sort b w ≡ some b') × IsList target b'
  unfolding add_new
  add_new-IsList b w k hw = elim (Bool-cases (Buckets.contains b w.node.id)) [
    | inl e ↦ (b, rw (add_new, e) refl, k)
    | inr e ↦
        let p = add_drop-IsPart sort target h b w k.part (bad-IsId w hw) in
        (p.0, rw (add_new, e, p.1) refl, record { part = p.2; size = p.4 ∙ k.size })
  ]

  pub seed-IsList :
      (b : Buckets NodeWrapper) (ws : List NodeWrapper)
      → IsList target b
      → All (λ w. IsId w.node.id) ws
      → (b' : Buckets NodeWrapper) × (seed sort b ws ≡ some b') × IsList target b'
  unfolding seed
  seed-IsList b [] k hs = (b, refl, k)
  seed-IsList b (w ∷ ws) k hs =
      let p = add_new-IsList b w k hs.0 in
      let q = seed-IsList p.0 ws p.2 hs.1 in (q.0, rw p.1 q.1, q.2)

  pub add_nodes-IsList :
      (b : Buckets NodeWrapper) (now : ℕ → ℕ) (ns : List Node)
      → IsList target b
      → All (λ n. IsId n.id) ns
      → (b' : Buckets NodeWrapper) × (add_nodes sort b now ns ≡ some b') × IsList target b'
  unfolding add_nodes
  add_nodes-IsList b now [] k hs = (b, refl, k)
  add_nodes-IsList b now (n ∷ ns) k hs =
      let p = add_new-IsList b (wrap n (now 0)) k hs.0 in
      let q = add_nodes-IsList p.0 (λ i. now (suc i)) ns p.2 hs.1 in (q.0, rw p.1 q.1, q.2)

  pub decide-buckets :
      (s : Search) (nearest : List NodeWrapper) (few : Bool)
      → (decide s nearest few).0.buckets ≡ s.buckets
  unfolding decide
  decide-buckets s nearest few = ground arith

  step-IsList :
      (s : Search) (e : Event)
      → IsList target s.buckets
      → HasIds e
      → (s' : Search) × (step s e ≡ some s') × IsList target s'.buckets
  unfolding find_node_round find_node_reply
  step-IsList s (round ws) k hs =
      let p = seed-IsList s.buckets ws k hs in
      rw (find_node_round, p.1) (_, refl, rw (decide-buckets _ _ _) p.2)
  step-IsList s (reply now (err e)) k hs = (s, refl, k)
  step-IsList s (reply now (ok m)) k hs =
      let p = add_nodes-IsList s.buckets now (nodes_found m.message_type) k hs in
      (record s { buckets = p.0 }, rw (find_node_reply, p.1) refl, p.2)

  run-IsList :
      (s : Search) (es : List Event)
      → IsList target s.buckets
      → All HasIds es
      → (s' : Search) × (run s es ≡ some s') × IsList target s'.buckets
  run-IsList s [] k hs = (s, refl, k)
  run-IsList s (e ∷ es) k hs =
      let p = step-IsList s e k hs.0 in
      let q = run-IsList p.0 es p.2 hs.1 in (q.0, ap (λ o. o >>= (λ s'. run s' es)) p.1 ∙ q.1, q.2)

  values-IsId :
      (b : Buckets NodeWrapper)
      → IsList target b
      → All (λ w. IsId (node_wrapper_bucketable.get_id w)) (values b)
  unfolding node_wrapper_bucketable
  values-IsId b k =
      All-map (λ w. bad w ≡ false) _ bad_no (values b)
        (All-of_count_if bad (values b) ((values_lem b).0 bad ∙ k.part.ids))

  -- A search for the nodes nearest to an id does not panic, whatever nodes the table of the DHT has in
  -- each round and whatever is replied, in any order, with ids that are ids. Its list of nodes stays
  -- well-formed around that id, and the result are 8 nodes of the list, or all if there are fewer, from
  -- the nearest to the farthest, such that no other node of the list is nearer than any of them.
  pub find_node_lem :
      (es : List Event)
      → All HasIds es
      → (s : Search) × (nearest : List NodeWrapper) × (others : List NodeWrapper) × (run
            (start sort target)
            es
          ≡ some s)
        × IsPart target s.buckets
        × (find_node_result sort s target ≡ map (λ w. w.node) nearest)
        × IsSortedBy (distance sort target) (nearest ++ others)
        × ((p : NodeWrapper → Bool) → count_if p (nearest ++ others) ≡ total p s.buckets.buckets)
        × (length nearest ≡ min 8 (total (λ w. true) s.buckets.buckets))
  unfolding start find_node_result is_excluded Buckets.new
  find_node_lem es hs =
      let p =
        run-IsList (start sort target) es
          (record {
            part = record { valid = new-IsValid target 8; own = refl; ids = refl };
            size = refl;
          })
          hs in
      let near =
        get_nearest_nodes_lem sort p.0.buckets target none h (values-IsId p.0.buckets p.2) in
      (
        p.0,
        Buckets.get_nearest_nodes sort p.0.buckets target none,
        near.0,
        p.1,
        p.2.part,
        refl,
        near.1,
        near.2,
        near.3 ∙ ap (λ k. min k (total (λ w. true) p.0.buckets.buckets)) p.2.size,
      )
