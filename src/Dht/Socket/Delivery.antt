-- ===== src/Dht/Socket/Delivery.antt =====
-- src/dht/socket.rs: which responses are delivered, and src/dht/dht.rs: a request from one node to
-- another, and back.
use rustydht_lib.Prelude.{
  ℕ, ◌≡◌, refl, ap, ◌∙◌, inl, inr, true, false, Option, some, [], ◌∷◌, ◌++◌, arith,
}
use rustydht_lib.Common.Error.{ok}
use rustydht_lib.Common.Id.{NodeId, IsId}
use rustydht_lib.Common.Net.{Ipv4Addr, v4, SocketAddr}
use rustydht_lib.Common.Net.Equality.{sockaddr_eq_refl}
use rustydht_lib.Packets.Message.{
  Message, MessageType, RequestSpecific, ResponseSpecific, request_author, get_author_id,
}
use rustydht_lib.Storage.OutboundRequestStorage.{
  RequestInfo, take_matching_request_info, sender_matches,
}
use rustydht_lib.Storage.OutboundRequestStorage.Matching.{is_answer, answers, take-add_request}
use rustydht_lib.Dht.Requests.{is_request}
use rustydht_lib.Dht.State.{World, DhtState, Clock}
use rustydht_lib.Dht.Handlers.{Sent, Handled, accept_single_packet}
use rustydht_lib.Dht.Invariant.{IsDht}
use rustydht_lib.Dht.Accepting.{is_refused, accept_request_lem}
use rustydht_lib.Dht.Socket.{
  DhtSocket, send, store_request, enqueue, forward, deliver, pass_response, incoming_as,
  incoming_single,
}

-- What `send_to` waits for.
abbrev pub request_info : Message → SocketAddr → Option NodeId → ℕ → ℕ → RequestInfo
request_info msg dest dest_id now channel = record {
  addr = dest;
  id = dest_id;
  packet = msg;
  created_at = now;
  response_channel = some channel;
}

-- An answer is a response.
answer-response :
    (t u : MessageType)
    → is_answer t u ≡ true
    → (res : ResponseSpecific) × (t ≡ MessageType.response res)
answer-response (MessageType.response res) u h = (res, refl)
answer-response (MessageType.request req) u h = absurd (ground (arith, h))
answer-response (MessageType.error e) u h = absurd (ground (arith, h))

-- A response in the storage's terms: it is delivered if a request matches, and dropped if none does.
incoming_response :
    (s : DhtSocket) (msg : Message) (sender : SocketAddr) (res : ResponseSpecific)
    → msg.message_type ≡ MessageType.response res
    → incoming_single s (ok msg) sender
      ≡ ok (
          pass_response
            (record s {
              request_storage = (take_matching_request_info s.request_storage msg sender).1;
            })
            (take_matching_request_info s.request_storage msg sender).0
            msg
            sender)
unfolding incoming_single incoming_as
incoming_response s msg sender res e = ap (λ t. ok (incoming_as s msg sender t)) e

-- After a request was sent, the response that answers it, from its receiver, is delivered into the
-- request's channel and into the general one. A second copy of it is dropped.
pub answer_delivered :
    (s : DhtSocket) (req reply : Message) (dest : SocketAddr) (dest_id : Option NodeId)
    (now channel : ℕ)
    → is_request req.message_type ≡ true
    → reply.transaction_id ≡ req.transaction_id
    → answers reply dest reply.message_type (request_info req dest dest_id now channel) ≡ true
    → (t : DhtSocket) × (incoming_single (send s req dest dest_id now channel).1 (ok reply) dest
        ≡ ok t)
      × (t.responses ≡ s.responses ++ (channel, reply) ∷ [])
      × (t.recv_from ≡ s.recv_from ++ (reply, dest) ∷ [])
      × ((u : DhtSocket) × (incoming_single t (ok reply) dest ≡ ok u)
          × (u.responses ≡ t.responses)
          × (u.recv_from ≡ t.recv_from))
unfolding send store_request deliver pass_response
answer_delivered s req reply dest dest_id now channel is same h =
    let info = request_info req dest dest_id now channel in
    let waits : DhtSocket = enqueue (store_request s req dest dest_id now channel) req dest in
    let sent : (send s req dest dest_id now channel).1 ≡ waits = rw is refl in
    let kind : is_answer reply.message_type req.message_type ≡ true = ground (arith, h) in
    let res = answer-response reply.message_type req.message_type kind in
    let taken = take-add_request s.request_storage info reply dest same h in
    let first = take_matching_request_info waits.request_storage reply dest in
    let left : DhtSocket = record waits { request_storage = first.1 } in
    let t : DhtSocket = forward (deliver left (some channel) reply) reply dest in
    let again = take_matching_request_info t.request_storage reply dest in
    let u : DhtSocket = record t { request_storage = again.1 } in
    (
      t,
      ap (λ z. incoming_single z (ok reply) dest) sent
          ∙ incoming_response waits reply dest res.0 res.1
          ∙ ap (λ o. ok (pass_response left o reply dest)) taken.0,
      refl,
      refl,
      (
        u,
        incoming_response t reply dest res.0 res.1
            ∙ ap (λ o. ok (pass_response u o reply dest)) taken.1,
        refl,
        refl,
      ),
    )

-- A request of ours to a node whose state keeps the invariant: if that node does not refuse it, its
-- reply, when it comes back from the address that we sent the request to, is delivered to who waits
-- for it. If an id was recorded with the request, it has to be that node's.
pub request_answered :
    (w : World) (s : DhtState w) (clock : Clock) (socket : DhtSocket) (msg : Message)
    (req : RequestSpecific) (ip our_ip : Ipv4Addr) (port our_port : ℕ) (dest_id : Option NodeId)
    (now channel : ℕ)
    → IsDht w s
    → msg.message_type ≡ MessageType.request req
    → IsId (request_author req)
    → is_refused w s (record { ip = v4 our_ip; port = our_port }) req ≡ false
    → sender_matches dest_id (some s.our_id) ≡ true
    → (h : Handled w) × (reply : Sent) × (t : DhtSocket) × (accept_single_packet w s clock msg
          (record { ip = v4 our_ip; port = our_port })
        ≡ some h)
      × (h.result ≡ ok (some reply))
      × (reply.addr ≡ record { ip = v4 our_ip; port = our_port })
      × (incoming_single
            (send socket msg (record { ip = v4 ip; port = port }) dest_id now channel).1
            (ok reply.packet)
            (record { ip = v4 ip; port = port })
          ≡ ok t)
      × (t.responses ≡ socket.responses ++ (channel, reply.packet) ∷ [])
unfolding is_request
request_answered w s clock socket msg req ip our_ip port our_port dest_id now channel h is author
      fine known =
    let p = accept_request_lem w s clock msg our_ip our_port req h is author in
    elim p.4 [
      | inr (refused, r) ↦ absurd (ground (arith, refused, fine))
      | inl (e, (reply, sent, r)) ↦
          let dest : SocketAddr = record { ip = v4 ip; port = port } in
          let asks : is_request msg.message_type ≡ true = ap is_request is in
          let sender : sender_matches dest_id (get_author_id reply.packet) ≡ true =
            ap (sender_matches dest_id) r.author ∙ known in
          let kind : is_answer reply.packet.message_type msg.message_type ≡ true =
            ap (is_answer reply.packet.message_type) is ∙ r.kind in
          let fits : answers reply.packet dest reply.packet.message_type
                (request_info msg dest dest_id now channel)
              ≡ true =
            ground (arith, sockaddr_eq_refl dest, sender, kind) in
          let d =
            answer_delivered socket msg reply.packet dest dest_id now channel asks r.transaction
              fits in
          (p.0, reply, d.0, p.1, sent, r.receiver, d.1, d.2)
    ]
