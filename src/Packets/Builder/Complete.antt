-- ===== src/Packets/Builder/Complete.antt =====
-- src/packets/builder.rs: what `build` needs, and what it makes of it.
use rustydht_lib.Prelude.{
  ℕ, ◌≡◌, refl, Bool, true, false, ◌&&◌, ◌||◌, Option, none, some, is_some, List, arith, ltb,
  Option-cases, inl, inr,
}
use rustydht_lib.Common.Error.{Result, ok, is_ok}
use rustydht_lib.Common.Id.{NodeId}
use rustydht_lib.Packets.Message.{Message, get_author_id, request_author, response_author}
use rustydht_lib.Packets.Builder.{
  MessageBuilder, BuilderMessageType, ping_request, ping_response, find_node_request,
  find_node_response, get_peers_request, get_peers_response, announce_peer_request,
  announce_peer_response, sample_info_hashes_request, sample_info_hashes_response, error,
  required_or_error, build_request_common, build_response_common, build_ping_request,
  build_ping_response, build_find_node_request, build_find_node_response, build_get_peers_request,
  peers_or_nodes, build_get_peers_response, implied_port_of, build_announce_peer_request,
  build_announce_peer_response, build_sample_infohashes_request, sample_parts,
  build_sample_infohashes_response, build_error, build_as, build, or_else,
}

-- A request to `announce_peer` that asks not to imply the port has to give one.
abbrev pub has_port : Option Bool → Option ℕ → Bool
has_port (some false) none = false
has_port _ _ = true

-- Whether the fields are there that a kind of message needs.
abbrev pub is_complete : BuilderMessageType → MessageBuilder → Bool
is_complete ping_request b = is_some b.sender_id
is_complete ping_response b = is_some b.transaction_id && is_some b.sender_id
is_complete find_node_request b = is_some b.sender_id && is_some b.target
is_complete find_node_response b =
    is_some b.transaction_id && (is_some b.sender_id && is_some b.nodes)
is_complete get_peers_request b = is_some b.sender_id && is_some b.target
is_complete get_peers_response b =
    is_some b.transaction_id
    && (is_some b.sender_id && (is_some b.token && (is_some b.peers || is_some b.nodes)))
is_complete announce_peer_request b =
    is_some b.sender_id && (is_some b.target && (is_some b.token && has_port b.implied_port b.port))
is_complete announce_peer_response b = is_some b.transaction_id && is_some b.sender_id
is_complete sample_info_hashes_request b = is_some b.sender_id && is_some b.target
is_complete sample_info_hashes_response b =
    is_some b.transaction_id
    && (is_some b.sender_id
        && (is_some b.interval
            && (is_some b.nodes && (is_some b.num_infohashes && is_some b.samples))))
is_complete error b = is_some b.transaction_id && (is_some b.code && is_some b.description)

abbrev pub is_i32 : Option ℕ → Bool
is_i32 none = true
is_i32 (some n) = ltb n 2147483648

sample_complete :
    (b : MessageBuilder)
    → is_i32 b.num_infohashes ≡ true
    → (r : Result Message) × (build_sample_infohashes_response b ≡ some r)
      × (is_ok r ≡ is_complete sample_info_hashes_response b)
unfolding required_or_error build_sample_infohashes_response sample_parts
sample_complete b small = elim (Option-cases (build_sample_infohashes_response b)) [
  | inl panic ↦ absurd (ground arith)
  | inr (r, run) ↦ (r, run, ground arith)
]

build_as_complete :
    (t : BuilderMessageType) (b : MessageBuilder) (random : List ℕ)
    → is_i32 b.num_infohashes ≡ true
    → (r : Result Message) × (build_as t b random ≡ some r) × (is_ok r ≡ is_complete t b)
unfolding build_as build_request_common build_response_common required_or_error peers_or_nodes
    implied_port_of build_ping_request build_ping_response build_find_node_request
    build_find_node_response build_get_peers_request build_get_peers_response
    build_announce_peer_request build_announce_peer_response build_sample_infohashes_request
    build_sample_infohashes_response sample_parts build_error
build_as_complete ping_request b random small = (build_ping_request b random, refl, ground arith)
build_as_complete ping_response b random small = (build_ping_response b, refl, ground arith)
build_as_complete find_node_request b random small =
    (build_find_node_request b random, refl, ground arith)
build_as_complete find_node_response b random small =
    (build_find_node_response b, refl, ground arith)
build_as_complete get_peers_request b random small =
    (build_get_peers_request b random, refl, ground arith)
build_as_complete get_peers_response b random small =
    (build_get_peers_response b, refl, ground arith)
build_as_complete announce_peer_request b random small =
    (build_announce_peer_request b random, refl, ground arith)
build_as_complete announce_peer_response b random small =
    (build_announce_peer_response b, refl, ground arith)
build_as_complete sample_info_hashes_request b random small =
    (build_sample_infohashes_request b random, refl, ground arith)
build_as_complete error b random small = (build_error b, refl, ground arith)
build_as_complete sample_info_hashes_response b random small = sample_complete b small

-- `build` succeeds exactly if the fields are there that its kind of message needs. It never panics
-- if the number of info hashes, where one is given, is below 2³¹.
pub build_complete :
    (b : MessageBuilder) (random : List ℕ)
    → is_i32 b.num_infohashes ≡ true
    → (r : Result Message) × (build b random ≡ some r) × (is_ok r ≡ is_complete b.message_type b)
unfolding build
build_complete b random small = build_as_complete b.message_type b random small

-- What the kinds of messages take over: an error has no author, no version and no address, and
-- only a request has the read-only flag.
abbrev pub author_field : BuilderMessageType → MessageBuilder → Option NodeId
author_field error b = none
author_field t b = b.sender_id

abbrev pub version_field : BuilderMessageType → MessageBuilder → Option (List ℕ)
version_field error b = none
version_field t b = b.version

build_as_fields :
    (t : BuilderMessageType) (b : MessageBuilder) (random : List ℕ) (m : Message)
    → build_as t b random ≡ some (ok m)
    → (get_author_id m ≡ author_field t b)
      × (m.version ≡ version_field t b)
      × (m.transaction_id ≡ or_else b.transaction_id random)
unfolding build_as build_request_common build_response_common required_or_error peers_or_nodes
    implied_port_of build_ping_request build_ping_response build_find_node_request
    build_find_node_response build_get_peers_request build_get_peers_response
    build_announce_peer_request build_announce_peer_response build_sample_infohashes_request
    build_sample_infohashes_response sample_parts build_error get_author_id request_author
    response_author
build_as_fields ping_request b random m e = ground arith
build_as_fields ping_response b random m e = ground arith
build_as_fields find_node_request b random m e = ground arith
build_as_fields find_node_response b random m e = ground arith
build_as_fields get_peers_request b random m e = ground arith
build_as_fields get_peers_response b random m e = ground arith
build_as_fields announce_peer_request b random m e = ground arith
build_as_fields announce_peer_response b random m e = ground arith
build_as_fields sample_info_hashes_request b random m e = ground arith
build_as_fields sample_info_hashes_response b random m e = ground arith
build_as_fields error b random m e = ground arith

-- A message that `build` makes has the sender as its author (an error has none), the version that
-- was set (an error has none), and the transaction id that was set, or else the random one.
pub build_fields :
    (b : MessageBuilder) (random : List ℕ) (m : Message)
    → build b random ≡ some (ok m)
    → (get_author_id m ≡ author_field b.message_type b)
      × (m.version ≡ version_field b.message_type b)
      × (m.transaction_id ≡ or_else b.transaction_id random)
unfolding build
build_fields b random m e = build_as_fields b.message_type b random m e
