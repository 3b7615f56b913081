-- ===== src/Dht/Accepting.antt =====
-- src/dht/dht.rs: `accept_single_packet` as a whole.
use mathlib.Core.Path.{subst}
use rustydht_lib.Prelude.{
  ℕ, ◌≡◌, refl, sym, ap, ◌∙◌, ◌⊎◌, inl, inr, Bool, true, false, not, Option, none, some, Bool-cases,
}
use rustydht_lib.Common.Error.{ok}
use rustydht_lib.Common.Id.{IsId}
use rustydht_lib.Common.Net.{Ipv4Addr, v4, SocketAddr}
use rustydht_lib.Packets.Message.{
  Message, RequestSpecific, MessageType, request_author, get_author_id,
}
use rustydht_lib.Dht.State.{World, DhtState, Clock, common_request_handling}
use rustydht_lib.Dht.Handlers.{
  Sent, Handled, is_token_valid, announce, handle_request, after_common, accept_as,
  accept_single_packet,
}
use rustydht_lib.Dht.Invariant.{IsDht, admit-IsDht}
use rustydht_lib.Dht.Replies.{
  IsReply, Answers, ping-Answers, find_node-Answers, give_peers-Answers, announce-Answers,
  sample-Answers,
}

module _ (w : World) where
  -- An announcement with a token that is not valid.
  abbrev pub is_refused : DhtState w → SocketAddr → RequestSpecific → Bool
  is_refused s addr (RequestSpecific.announce_peer_request a) =
      not (is_token_valid w s addr a.token)
  is_refused s addr (RequestSpecific.ping_request a) = false
  is_refused s addr (RequestSpecific.get_peers_request a) = false
  is_refused s addr (RequestSpecific.find_node_request a) = false
  is_refused s addr (RequestSpecific.sample_info_hashes_request a) = false

  -- A request is answered, or refused without a change of the state.
  abbrev pub Handles :
      DhtState w → Message → SocketAddr → RequestSpecific → Option (Handled w) → Type 0
  Handles s msg addr req handled =
      (is_refused s addr req ≡ false) × Answers w s msg addr req handled
      ⊎ (is_refused s addr req ≡ true) × (handled ≡ some (record { state = s; result = ok none }))

  handle_request_lem :
      (s : DhtState w) (clock : Clock) (msg : Message) (addr : SocketAddr) (req : RequestSpecific)
      → IsDht w s
      → Handles s msg addr req (handle_request w s clock msg addr req)
  unfolding handle_request
  handle_request_lem s clock msg addr (RequestSpecific.ping_request a) h =
      inl (refl, ping-Answers w s msg addr a h)
  handle_request_lem s clock msg addr (RequestSpecific.get_peers_request a) h =
      inl (refl, give_peers-Answers w s clock msg addr a h)
  handle_request_lem s clock msg addr (RequestSpecific.find_node_request a) h =
      inl (refl, find_node-Answers w s msg addr a h)
  handle_request_lem s clock msg addr (RequestSpecific.announce_peer_request a) h =
      elim (Bool-cases (is_token_valid w s addr a.token)) [
        | inl e ↦ inl (ap not e, announce-Answers w s clock msg addr a h e)
        | inr e ↦ inr (ap not e, rw (announce, e) refl)
      ]
  handle_request_lem s clock msg addr (RequestSpecific.sample_info_hashes_request a) h =
      inl (refl, sample-Answers w s clock msg addr a h)

  -- The same secrets refuse the same requests.
  same_refusal :
      (s s' : DhtState w) (addr : SocketAddr) (req : RequestSpecific)
      → s'.token_secret ≡ s.token_secret
      → s'.old_token_secret ≡ s.old_token_secret
      → is_refused s' addr req ≡ is_refused s addr req
  unfolding is_token_valid
  same_refusal s s' addr (RequestSpecific.announce_peer_request a) e f = rw (e, f) refl
  same_refusal s s' addr (RequestSpecific.ping_request a) e f = refl
  same_refusal s s' addr (RequestSpecific.get_peers_request a) e f = refl
  same_refusal s s' addr (RequestSpecific.find_node_request a) e f = refl
  same_refusal s s' addr (RequestSpecific.sample_info_hashes_request a) e f = refl

  -- What is left of a request after the table was offered its author.
  pub accept_runs :
      (s : DhtState w) (clock : Clock) (msg : Message) (ip : Ipv4Addr) (port : ℕ)
      (req : RequestSpecific)
      → IsDht w s
      → msg.message_type ≡ MessageType.request req
      → IsId (request_author req)
      → (s' : DhtState w) × (accept_single_packet w s clock msg (record { ip = v4 ip; port = port })
          ≡ handle_request w s' clock msg (record { ip = v4 ip; port = port }) req)
        × IsDht w s'
        × (s'.our_id ≡ s.our_id)
        × (s'.peer_storage ≡ s.peer_storage)
        × (s'.token_secret ≡ s.token_secret)
        × (s'.old_token_secret ≡ s.old_token_secret)
  unfolding accept_single_packet accept_as after_common common_request_handling get_author_id
  accept_runs s clock msg ip port req h is author =
      let p = admit-IsDht w s clock ip port msg.read_only (request_author req) h author in
      (p.0, rw (accept_single_packet, is, p.1) refl, p.2, p.3, p.5, p.6, p.7)

  -- A node whose state keeps the invariant takes every request of an IPv4 address without a panic or
  -- an error, if the author's id is an id, and keeps the invariant and its id. It sends one packet,
  -- which answers the request, except to an announcement with a token that is not valid: that one
  -- gets no answer.
  pub accept_request_lem :
      (s : DhtState w) (clock : Clock) (msg : Message) (ip : Ipv4Addr) (port : ℕ)
      (req : RequestSpecific)
      → IsDht w s
      → msg.message_type ≡ MessageType.request req
      → IsId (request_author req)
      → (h : Handled w) × (accept_single_packet w s clock msg (record { ip = v4 ip; port = port })
          ≡ some h)
        × IsDht w h.state
        × (h.state.our_id ≡ s.our_id)
        × ((is_refused s (record { ip = v4 ip; port = port }) req ≡ false)
              × ((sent : Sent) × (h.result ≡ ok (some sent))
                  × IsReply s.our_id msg (record { ip = v4 ip; port = port }) req sent)
            ⊎ (is_refused s (record { ip = v4 ip; port = port }) req ≡ true) × (h.result ≡ ok none))
  accept_request_lem s clock msg ip port req h is author =
      let addr : SocketAddr = record { ip = v4 ip; port = port } in
      let p = accept_runs s clock msg ip port req h is author in
      let same = same_refusal s p.0 addr req p.5 p.6 in
      elim (handle_request_lem p.0 clock msg addr req p.2) [
        | inl (e, a) ↦ (
          a.0,
          p.1 ∙ a.2,
          a.5,
          a.6 ∙ p.3,
          inl (sym same ∙ e, (a.1, a.3, subst (λ id. IsReply id msg addr req a.1) p.3 a.4)),
        )
        | inr (e, a) ↦
            (record { state = p.0; result = ok none }, p.1 ∙ a, p.2, p.3, inr (sym same ∙ e, refl))
      ]
