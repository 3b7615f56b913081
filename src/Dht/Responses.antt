-- ===== src/Dht/Responses.antt =====
-- src/dht/dht.rs: what a response does to the state.
use mathlib.Core.Option.{some_inj}
use rustydht_lib.Prelude.{
  ℕ, suc, ◌≡◌, refl, sym, ap, ◌∙◌, ◌⊎◌, inl, inr, Bool, true, false, Option, none, some, List, [],
  ◌∷◌, Bool-cases, All,
}
use rustydht_lib.Common.Error.{ok}
use rustydht_lib.Common.Id.{NodeId, IsId}
use rustydht_lib.Common.Magic.{is_valid_for_ip}
use rustydht_lib.Common.Magic.Valid.{is_valid_for_ip_v4}
use rustydht_lib.Common.Net.{Ipv4Addr, IpAddr, v4, v6, SocketAddr, Node}
use rustydht_lib.Packets.Message.{
  Message, MessageType, ResponseSpecific, response_author, get_author_id,
}
use rustydht_lib.Dht.State.{World, DhtState, Clock, add_node}
use rustydht_lib.Dht.Requests.{
  vote_claim, vote_for, ip4_vote_helper, see_nodes, see_response, verify_responder, handle_reply_as,
  handle_reply,
}
use rustydht_lib.Dht.Invariant.{IsDht, add_node-IsDht}

-- A node with an id, at an IPv4 address.
abbrev pub IsNode4 : Node → Type 0
IsNode4 n = IsId n.id × ((ip : Ipv4Addr) × (n.address.ip ≡ v4 ip))

abbrev pub nodes_of : ResponseSpecific → List Node
nodes_of (ResponseSpecific.find_node_response args) = args.nodes
nodes_of (ResponseSpecific.ping_response args) = []
nodes_of (ResponseSpecific.get_peers_response args) = []
nodes_of (ResponseSpecific.sample_info_hashes_response args) = []

-- The parts of the state that no response changes.
pub record IsSame (w : World) (s s' : DhtState w) : Type 0 where
  pub our_id : s'.our_id ≡ s.our_id
  pub peer_storage : s'.peer_storage ≡ s.peer_storage
  pub token_secret : s'.token_secret ≡ s.token_secret
  pub old_token_secret : s'.old_token_secret ≡ s.old_token_secret

module _ (w : World) where
  refl-IsSame : (s : DhtState w) → IsSame w s s
  refl-IsSame s = record {
    our_id = refl;
    peer_storage = refl;
    token_secret = refl;
    old_token_secret = refl;
  }

  trans-IsSame : (s t u : DhtState w) → IsSame w s t → IsSame w t u → IsSame w s u
  trans-IsSame s t u h k = record {
    our_id = k.our_id ∙ h.our_id;
    peer_storage = k.peer_storage ∙ h.peer_storage;
    token_secret = k.token_secret ∙ h.token_secret;
    old_token_secret = k.old_token_secret ∙ h.old_token_secret;
  }

  -- A step that does not panic and keeps the invariant.
  abbrev pub Keeps : DhtState w → Option (DhtState w) → Type 0
  Keeps s o = (s' : DhtState w) × (o ≡ some s') × IsDht w s' × IsSame w s s'

  add_node-Keeps :
      (s : DhtState w) (node : Node) (verified : Bool) (clock : Clock)
      → IsDht w s
      → IsId node.id
      → Keeps s (add_node w s node verified clock)
  add_node-Keeps s node verified clock h hn =
      let p = add_node-IsDht w s node verified clock h hn in
      (
        p.0,
        p.1,
        p.2,
        record { our_id = p.3; peer_storage = p.5; token_secret = p.6; old_token_secret = p.7 },
      )

  see_nodes-Keeps :
      (s : DhtState w) (clocks : ℕ → Clock) (i : ℕ) (nodes : List Node)
      → IsDht w s
      → All IsNode4 nodes
      → Keeps s (see_nodes w s clocks i nodes)
  unfolding see_nodes
  see_nodes-Keeps s clocks i [] h hs = (s, refl, h, refl-IsSame s)
  see_nodes-Keeps s clocks i (node ∷ nodes) h hs =
      let v = is_valid_for_ip_v4 w.checksum node.id hs.0.1.0 in
      let run : is_valid_for_ip w.checksum node.id node.address.ip ≡ some v.0 =
        ap (is_valid_for_ip w.checksum node.id) hs.0.1.1 ∙ v.1 in
      elim (Bool-cases v.0) [
        | inl e ↦
            let p = add_node-Keeps s node false (clocks i) h hs.0.0 in
            let q = see_nodes-Keeps p.0 clocks (suc i) nodes p.2 hs.1 in
            (q.0, rw (run, e, p.1) q.1, q.2, trans-IsSame s p.0 q.0 p.3 q.3)
        | inr e ↦
            let q = see_nodes-Keeps s clocks (suc i) nodes h hs.1 in
            (q.0, rw (run, e) q.1, q.2, q.3)
      ]

  see_response-Keeps :
      (s : DhtState w) (clocks : ℕ → Clock) (res : ResponseSpecific)
      → IsDht w s
      → All IsNode4 (nodes_of res)
      → Keeps s (see_response w s clocks res)
  unfolding see_response
  see_response-Keeps s clocks (ResponseSpecific.find_node_response args) h hs =
      see_nodes-Keeps s clocks 1 args.nodes h hs
  see_response-Keeps s clocks (ResponseSpecific.ping_response args) h hs =
      (s, refl, h, refl-IsSame s)
  see_response-Keeps s clocks (ResponseSpecific.get_peers_response args) h hs =
      (s, refl, h, refl-IsSame s)
  see_response-Keeps s clocks (ResponseSpecific.sample_info_hashes_response args) h hs =
      (s, refl, h, refl-IsSame s)

  vote_claim-Keeps :
      (s : DhtState w) (voter : Ipv4Addr) (claim : IpAddr)
      → IsDht w s
      → Keeps s (vote_claim w s voter claim)
  unfolding vote_claim
  vote_claim-Keeps s voter (v6 os) h = (s, refl, h, refl-IsSame s)
  vote_claim-Keeps s voter (v4 our_ip) h =
      let p = w.source.add_vote-IsSource s.ip4_source voter our_ip h.source in
      (
        record s { ip4_source = p.0 },
        rw p.1 refl,
        record {
          is_id = h.is_id;
          table = h.table;
          source = p.2;
          peers = h.peers;
          interval = h.interval;
        },
        record { our_id = refl; peer_storage = refl; token_secret = refl; old_token_secret = refl },
      )

  vote_for-Keeps :
      (s : DhtState w) (voter : IpAddr) (claim : Option SocketAddr)
      → IsDht w s
      → Keeps s (vote_for w s voter claim)
  unfolding vote_for
  vote_for-Keeps s (v6 os) claim h = (s, refl, h, refl-IsSame s)
  vote_for-Keeps s (v4 ip) none h = (s, refl, h, refl-IsSame s)
  vote_for-Keeps s (v4 ip) (some claim) h = vote_claim-Keeps s ip claim.ip h

  verify_responder-Keeps :
      (s : DhtState w) (clock : Clock) (ip : Ipv4Addr) (port : ℕ) (reply : Message) (id : NodeId)
      → IsDht w s
      → IsId id
      → Keeps s (verify_responder w s clock (record { ip = v4 ip; port = port }) reply id)
  unfolding verify_responder ip4_vote_helper
  verify_responder-Keeps s clock ip port reply id h hid =
      let target : SocketAddr = record { ip = v4 ip; port = port } in
      let v = is_valid_for_ip_v4 w.checksum id ip in
      elim (Bool-cases v.0) [
        | inl e ↦
            let p = vote_for-Keeps s (v4 ip) reply.requester_ip h in
            let q = add_node-Keeps p.0 (record { id = id; address = target }) true clock p.2 hid in
            (q.0, rw (verify_responder, v.1, e, p.1) q.1, q.2, trans-IsSame s p.0 q.0 p.3 q.3)
        | inr e ↦ (s, rw (verify_responder, v.1, e) refl, h, refl-IsSame s)
      ]

  -- A responder whose id is not valid for its address neither votes nor joins the table.
  invalid_responder :
      (s : DhtState w) (clock : Clock) (target : SocketAddr) (reply : Message) (id : NodeId)
      → is_valid_for_ip w.checksum id target.ip ≡ some false
      → verify_responder w s clock target reply id ≡ some s
  unfolding verify_responder
  invalid_responder s clock target reply id e = rw (verify_responder, e) refl

  -- A response to a request of ours that comes from an IPv4 address, with ids that are ids and nodes
  -- at IPv4 addresses, is handled without a panic or an error. The invariant is kept; our id, the
  -- peers and the token secrets are not changed. If the responder's id is not valid for its address,
  -- only the nodes in its response have an effect: it has no vote, and does not join the table.
  pub handle_reply_lem :
      (s : DhtState w) (clocks : ℕ → Clock) (ip : Ipv4Addr) (port : ℕ) (reply : Message)
      (res : ResponseSpecific)
      → IsDht w s
      → reply.message_type ≡ MessageType.response res
      → IsId (response_author res)
      → All IsNode4 (nodes_of res)
      → (s' : DhtState w) × (handle_reply w s clocks (record { ip = v4 ip; port = port }) reply
          ≡ some (ok s'))
        × IsDht w s'
        × IsSame w s s'
        × ((is_valid_for_ip w.checksum (response_author res) (v4 ip) ≡ some true)
            ⊎ (see_response w s clocks res ≡ some s'))
  unfolding handle_reply handle_reply_as get_author_id
  handle_reply_lem s clocks ip port reply res h is author nodes =
      let p = verify_responder-Keeps s (clocks 0) ip port reply (response_author res) h author in
      let q = see_response-Keeps p.0 clocks res p.2 nodes in
      let v = is_valid_for_ip_v4 w.checksum (response_author res) ip in
      let wrote : get_author_id reply ≡ some (response_author res) = rw (get_author_id, is) refl in
      let target : SocketAddr = record { ip = v4 ip; port = port } in
      let run : handle_reply_as w s clocks target reply (MessageType.response res) ≡ some (ok q.0) =
        rw (handle_reply_as, wrote, p.1, q.1) refl in
      (
        q.0,
        ap (handle_reply_as w s clocks target reply) is ∙ run,
        q.2,
        trans-IsSame s p.0 q.0 p.3 q.3,
        elim (Bool-cases v.0) [
          | inl e ↦ inl (v.1 ∙ ap some e)
          | inr e ↦
              let ignored =
                invalid_responder s (clocks 0) target reply (response_author res)
                  (v.1 ∙ ap some e) in
              inr (ap (λ z. see_response w z clocks res) (some_inj.0 (sym ignored ∙ p.1)) ∙ q.1)
        ],
      )
