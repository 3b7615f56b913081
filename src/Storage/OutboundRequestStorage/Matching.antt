-- ===== src/Storage/OutboundRequestStorage/Matching.antt =====
-- src/storage/outbound_request_storage.rs: which request a message takes, and what is left.
use rustydht_lib.Prelude.{
  ℕ, ◌≡◌, refl, sym, ap, ◌∙◌, ◌↔◌, ◌⊎◌, inl, inr, Bool, true, false, ◌&&◌, Option, none, some, List,
  [], ◌∷◌, arith, Option-cases, if◌then◌else◌,
}
use rustydht_lib.Common.Id.{bytes_eq}
use rustydht_lib.Common.Id.Distance.{bytes_eq_iff}
use rustydht_lib.Common.Net.{SocketAddr, sockaddr_eq}
use rustydht_lib.Common.Id.{NodeId}
use rustydht_lib.Common.Id.Distance.{id_eq_iff}
use rustydht_lib.Common.Net.Equality.{sockaddr_eq_iff}
use rustydht_lib.Packets.Message.Matching.{
  request_method, response_method, response_matches_request_lem,
}
use rustydht_lib.Packets.Message.{
  ResponseSpecific, RequestSpecific, response_matches_request, MessageType, request, response,
  error, Message, get_author_id,
}
use rustydht_lib.Storage.OutboundRequestStorage.{
  RequestInfo, OutboundRequestStorage, find, erase, add_request, sender_matches, kind_matches,
  check_request, match_response, get_matching_request_info, take_matching_request_info,
}

find-erase :
    (tid k : List ℕ) (es : List (List ℕ × RequestInfo))
    → find k (erase tid es) ≡ (if bytes_eq k tid then none else find k es)
unfolding find erase
find-erase tid k [] = ground arith
find-erase tid k (e ∷ es) =
    ground
      (arith, find-erase tid k es, bytes_eq_iff e.0 tid, bytes_eq_iff e.0 k, bytes_eq_iff k tid)

pub find-add_request :
    (s : OutboundRequestStorage) (info : RequestInfo)
    → find info.packet.transaction_id (add_request s info).requests ≡ some info
unfolding find add_request
find-add_request s info =
    ground (arith, bytes_eq_iff info.packet.transaction_id info.packet.transaction_id)

-- The message is a response of the kind that the request asks for.
abbrev pub is_answer : MessageType → MessageType → Bool
is_answer (response res) t = kind_matches res t
is_answer (request req) t = false
is_answer (error e) t = false

-- What a message and its source must be for a request.
abbrev pub answers : Message → SocketAddr → MessageType → RequestInfo → Bool
answers msg src_addr t info =
    sockaddr_eq info.addr src_addr
    && (sender_matches info.id (get_author_id msg) && is_answer t info.packet.message_type)

match_response_lem :
    (es : List (List ℕ × RequestInfo)) (msg : Message) (src_addr : SocketAddr) (t : MessageType)
    (info : RequestInfo)
    → (match_response es msg src_addr t ≡ some info)
      ↔ ((find msg.transaction_id es ≡ some info) × (answers msg src_addr t info ≡ true))
unfolding match_response check_request
match_response_lem es msg src_addr (response res) info =
    elim (Option-cases (find msg.transaction_id es)) [
      | inl missing ↦ ground (arith, missing)
      | inr (found, e) ↦ ground (arith, e)
    ]
match_response_lem es msg src_addr (request req) info = ground arith
match_response_lem es msg src_addr (error e) info = ground arith

-- What a response must be for a request: it comes from the address that the request went to, its
-- sender is the addressee of the request, where one is recorded, and its kind is the request's.
pub record IsMatch (msg : Message) (src_addr : SocketAddr) (info : RequestInfo) : Type 0 where
  pub source : info.addr ≡ src_addr
  pub sender : (info.id ≡ none) ⊎ (info.id ≡ get_author_id msg)
  pub res : ResponseSpecific
  pub req : RequestSpecific
  pub is_response : msg.message_type ≡ response res
  pub is_request : info.packet.message_type ≡ request req
  pub methods : response_method res ≡ request_method req

response_matches_iff :
    (res : ResponseSpecific) (req : RequestSpecific)
    → (response_matches_request res req ≡ true) ↔ (response_method res ≡ request_method req)
response_matches_iff res req = ground (arith, response_matches_request_lem res req)

sender_matches_iff :
    (addressee sender : Option NodeId)
    → (sender_matches addressee sender ≡ true) ↔ ((addressee ≡ none) ⊎ (addressee ≡ sender))
unfolding sender_matches
sender_matches_iff none sender = (λ h. inl refl, λ h. refl)
sender_matches_iff (some id) none = ground arith
sender_matches_iff (some id) (some sender) = ground (arith, id_eq_iff id sender)

answered_kinds :
    (t u : MessageType)
    → is_answer t u ≡ true
    → (res : ResponseSpecific) × (req : RequestSpecific) × (t ≡ response res)
      × (u ≡ request req)
      × (response_method res ≡ request_method req)
unfolding kind_matches
answered_kinds (response res) (request req) h =
    (res, req, refl, refl, (response_matches_iff res req).0 h)
answered_kinds (response res) (response r) h = absurd (ground (arith, h))
answered_kinds (response res) (error e) h = absurd (ground (arith, h))
answered_kinds (request req) u h = absurd (ground (arith, h))
answered_kinds (error e) u h = absurd (ground (arith, h))

answers_iff :
    (msg : Message) (src_addr : SocketAddr) (info : RequestInfo)
    → (answers msg src_addr msg.message_type info ≡ true) ↔ IsMatch msg src_addr info
unfolding kind_matches
answers_iff msg src_addr info = (
  λ h.
      let k = answered_kinds msg.message_type info.packet.message_type (ground (arith, h)) in
      record {
        source = (sockaddr_eq_iff info.addr src_addr).0 (ground (arith, h));
        sender = (sender_matches_iff info.id (get_author_id msg)).0 (ground (arith, h));
        res = k.0;
        req = k.1;
        is_response = k.2;
        is_request = k.3;
        methods = k.4;
      },
  λ m.
      let kind : is_answer msg.message_type info.packet.message_type ≡ true =
        ap (λ t. is_answer t info.packet.message_type) m.is_response
        ∙ ap (kind_matches m.res) m.is_request
        ∙ (response_matches_iff m.res m.req).1 m.methods in
      ground (
        arith,
        (sockaddr_eq_iff info.addr src_addr).1 m.source,
        (sender_matches_iff info.id (get_author_id msg)).1 m.sender,
        kind,
      ),
)

matching-answers :
    (s : OutboundRequestStorage) (msg : Message) (src_addr : SocketAddr) (info : RequestInfo)
    → (get_matching_request_info s msg src_addr ≡ some info) ↔ (
        (find msg.transaction_id s.requests ≡ some info)
        × (answers msg src_addr msg.message_type info ≡ true))
unfolding get_matching_request_info
matching-answers s msg src_addr info =
    match_response_lem s.requests msg src_addr msg.message_type info

-- A request is found by `get_matching_request_info` exactly if it is stored under the transaction
-- id of the message and the message is a response to it: it came from the address that the request
-- went to, its sender is the addressee of the request, where one is recorded, and it is of the
-- request's method.
pub get_matching_request_info_lem :
    (s : OutboundRequestStorage) (msg : Message) (src_addr : SocketAddr) (info : RequestInfo)
    → (get_matching_request_info s msg src_addr ≡ some info)
      ↔ ((find msg.transaction_id s.requests ≡ some info) × IsMatch msg src_addr info)
get_matching_request_info_lem s msg src_addr info =
    let m = matching-answers s msg src_addr info in
    let a = answers_iff msg src_addr info in
    (λ e. ((m.0 e).0, a.0 (m.0 e).1), λ p. m.1 (p.0, a.1 p.1))

-- If no request matches, `take_matching_request_info` gives nothing and changes nothing. Otherwise
-- it gives the request that matches and removes it: nothing is left under the transaction id of the
-- message, and every other request stays.
pub take_matching_request_info_lem :
    (s : OutboundRequestStorage) (msg : Message) (src_addr : SocketAddr)
    → ((get_matching_request_info s msg src_addr ≡ none)
        × (take_matching_request_info s msg src_addr ≡ (none, s)))
      ⊎ ((info : RequestInfo) × (get_matching_request_info s msg src_addr ≡ some info)
          × ((take_matching_request_info s msg src_addr).0 ≡ some info)
          × ((k : List ℕ)
              → find k (take_matching_request_info s msg src_addr).1.requests
                ≡ (if bytes_eq k msg.transaction_id then none else find k s.requests)))
unfolding take_matching_request_info
take_matching_request_info_lem s msg src_addr =
    elim (Option-cases (get_matching_request_info s msg src_addr)) [
      | inl missing ↦ inl (missing, rw missing refl)
      | inr (info, e) ↦ inr (
        info,
        e,
        rw e ((matching-answers s msg src_addr info).0 e).0,
        λ k. rw e (find-erase msg.transaction_id k s.requests),
      )
    ]

second_take :
    (s : OutboundRequestStorage) (msg : Message) (src_addr : SocketAddr)
    → find msg.transaction_id s.requests ≡ none
    → (take_matching_request_info s msg src_addr).0 ≡ none
second_take s msg src_addr missing = elim (take_matching_request_info_lem s msg src_addr) [
  | inl (e, run) ↦ ap (λ r. r.0) run
  | inr (info, e, took, rest) ↦
      absurd (ground (arith, missing, ((matching-answers s msg src_addr info).0 e).0))
]

-- A request that was added is taken by a message that answers it, whatever else is stored, and only
-- once: the same message takes nothing a second time.
pub take-add_request :
    (s : OutboundRequestStorage) (info : RequestInfo) (msg : Message) (src_addr : SocketAddr)
    → msg.transaction_id ≡ info.packet.transaction_id
    → answers msg src_addr msg.message_type info ≡ true
    → ((take_matching_request_info (add_request s info) msg src_addr).0 ≡ some info)
      × ((take_matching_request_info
            (take_matching_request_info (add_request s info) msg src_addr).1
            msg
            src_addr).0
          ≡ none)
take-add_request s info msg src_addr same h =
    taken (take_matching_request_info_lem after msg src_addr)
  where
    after : OutboundRequestStorage
    after = add_request s info

    found : get_matching_request_info after msg src_addr ≡ some info
    found = (matching-answers after msg src_addr info).1 (rw same (find-add_request s info), h)

    taken :
        ((get_matching_request_info after msg src_addr ≡ none)
            × (take_matching_request_info after msg src_addr ≡ (none, after)))
          ⊎ ((i : RequestInfo) × (get_matching_request_info after msg src_addr ≡ some i)
              × ((take_matching_request_info after msg src_addr).0 ≡ some i)
              × ((k : List ℕ)
                  → find k (take_matching_request_info after msg src_addr).1.requests
                    ≡ (if bytes_eq k msg.transaction_id then none else find k after.requests)))
        → ((take_matching_request_info after msg src_addr).0 ≡ some info)
          × ((take_matching_request_info
                (take_matching_request_info after msg src_addr).1
                msg
                src_addr).0
              ≡ none)
    taken (inl (e, run)) = absurd (ground (arith, e, found))
    taken (inr (i, e, took, rest)) = (
      took ∙ sym e ∙ found,
      second_take (take_matching_request_info after msg src_addr).1 msg src_addr (
          ground
            (arith, rest msg.transaction_id, bytes_eq_iff msg.transaction_id msg.transaction_id)),
    )
