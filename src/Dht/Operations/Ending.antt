-- ===== src/Dht/Operations/Ending.antt =====
-- src/dht/operations.rs: when a search for nodes is over.
use mathlib.Core.Option.{some_inj}
use rustydht_lib.Prelude.{
  ℕ, suc, ◌≡◌, refl, sym, ap, ◌∙◌, Bool, true, false, Option, none, some, List, [], ◌∷◌, arith, All,
}
use rustydht_lib.Prelude.Maybe.{◌>>=◌, >>=-eq-some}
use rustydht_lib.Common.Error.{Result, ok, err}
use rustydht_lib.Common.Id.{NodeId}
use rustydht_lib.Common.Id.Distance.{id_eq_iff}
use rustydht_lib.Common.Net.{Node}
use rustydht_lib.Packets.Message.{Message}
use rustydht_lib.Storage.Sort.{UnstableSort}
use rustydht_lib.Storage.Buckets.{Buckets}
use rustydht_lib.Storage.Buckets
use rustydht_lib.Storage.NodeWrapper.{NodeWrapper, node_wrapper_bucketable}
use rustydht_lib.Dht.Operations.{
  Search, Turn, ids_eq, ids_of, add_new, seed, add_nodes, decide, is_empty, find_node_round,
  nodes_found, find_node_reply,
}
use rustydht_lib.Dht.Operations.Searching.{reply_nodes}

ids_eq_refl : (xs : List NodeId) → ids_eq xs xs ≡ true
unfolding ids_eq
ids_eq_refl [] = refl
ids_eq_refl (x ∷ xs) = ground (arith, (id_eq_iff x x).1 refl, ids_eq_refl xs)

decide_asks :
    (s t : Search) (nearest asked : List NodeWrapper) (few : Bool)
    → decide s nearest few ≡ (t, Turn.ask asked)
    → (few ≡ false)
      × (ids_eq s.best_ids (ids_of nearest) ≡ false)
      × (record s { best_ids = ids_of nearest } ≡ t)
      × (nearest ≡ asked)
unfolding decide
decide_asks s t nearest asked few h = ground (arith, h)

decide_again :
    (s : Search) (nearest : List NodeWrapper) (few : Bool)
    → few ≡ false
    → s.best_ids ≡ ids_of nearest
    → decide s nearest few ≡ (s, Turn.finish)
unfolding decide
decide_again s nearest few h e = ground (arith, h, e, ids_eq_refl (ids_of nearest))

module _ (sort : UnstableSort NodeWrapper) (target : NodeId) where
  -- The replies that come in between two rounds, each with its time.
  abbrev pub take_replies : Search → List ((ℕ → ℕ) × Result Message) → Option Search
  take_replies s [] = some s
  take_replies s (r ∷ rs) = do s' ← find_node_reply sort s r.0 r.1; take_replies s' rs

  -- The nodes of the reply are all in the list of the search.
  abbrev pub IsKnown : Search → ((ℕ → ℕ) × Result Message) → Type 0
  IsKnown s r = All (λ n. Buckets.contains s.buckets n.id ≡ true) (reply_nodes r.1)

  seed_known :
      (b : Buckets NodeWrapper) (ws : List NodeWrapper)
      → All (λ w. Buckets.contains b w.node.id ≡ true) ws
      → seed sort b ws ≡ some b
  unfolding seed add_new
  seed_known b [] hs = refl
  seed_known b (w ∷ ws) hs = rw hs.0 (seed_known b ws hs.1)

  add_nodes_known :
      (b : Buckets NodeWrapper) (now : ℕ → ℕ) (ns : List Node)
      → All (λ n. Buckets.contains b n.id ≡ true) ns
      → add_nodes sort b now ns ≡ some b
  unfolding add_nodes add_new
  add_nodes_known b now [] hs = refl
  add_nodes_known b now (n ∷ ns) hs = rw hs.0 (add_nodes_known b (λ i. now (suc i)) ns hs.1)

  reply_known :
      (s : Search) (r : (ℕ → ℕ) × Result Message)
      → IsKnown s r
      → find_node_reply sort s r.0 r.1 ≡ some s
  unfolding find_node_reply
  reply_known s (now, err e) hs = refl
  reply_known s (now, ok m) hs =
      rw (add_nodes_known s.buckets now (nodes_found m.message_type) hs) refl

  replies_known :
      (s : Search) (rs : List ((ℕ → ℕ) × Result Message))
      → All (IsKnown s) rs
      → take_replies s rs ≡ some s
  replies_known s [] hs = refl
  replies_known s (r ∷ rs) hs =
      ap (λ o. o >>= (λ s'. take_replies s' rs)) (reply_known s r hs.0) ∙ replies_known s rs hs.1

  -- If the replies to a round that asked nodes have no node that the list of the search does not have
  -- already, and neither has the table of the DHT by the next round, the search ends in that round,
  -- with the list unchanged. The round itself asked the nearest nodes of the list, and these were not
  -- those that the round before had asked.
  pub search_ends :
      (s t : Search) (ws later asked : List NodeWrapper) (rs : List ((ℕ → ℕ) × Result Message))
      → find_node_round sort s target ws ≡ some (t, Turn.ask asked)
      → All (IsKnown t) rs
      → All (λ w. Buckets.contains t.buckets w.node.id ≡ true) later
      → (asked ≡ Buckets.get_nearest_nodes sort t.buckets target none)
        × ¬ (ids_of asked ≡ s.best_ids)
        × (take_replies t rs ≡ some t)
        × (find_node_round sort t target later ≡ some (t, Turn.finish))
  unfolding find_node_round
  search_ends s t ws later asked rs h hs hl =
      let m = >>=-eq-some (seed sort s.buckets ws) _ h in
      let nearest = Buckets.get_nearest_nodes sort m.0 target none in
      let d =
        decide_asks (record s { buckets = m.0 }) t nearest asked (is_empty nearest)
          (some_inj.0 m.2) in
      let same : m.0 ≡ t.buckets = ap (λ z. z.buckets) d.2 in
      let best : ids_of nearest ≡ t.best_ids = ap (λ z. z.best_ids) d.2 in
      let here : nearest ≡ Buckets.get_nearest_nodes sort t.buckets target none =
        ap (λ b. Buckets.get_nearest_nodes sort b target none) same in
      (
        sym d.3 ∙ here,
        λ e.
            let refuted : true ≡ false =
              sym (ids_eq_refl (ids_of nearest))
              ∙ ap (λ z. ids_eq z (ids_of nearest)) (ap ids_of d.3 ∙ e)
              ∙ d.1 in
            ground (arith, refuted),
        replies_known t rs hs,
        rw (seed_known t.buckets later hl) (
            ap some
              (decide_again t _ _ (ap is_empty (sym here) ∙ d.0) (sym best ∙ ap ids_of here))),
      )
