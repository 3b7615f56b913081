-- ===== src/Dht/Operations/Results.antt =====
-- src/dht/operations.rs: whom `announce_peer` announces to, and with which request.
use rustydht_lib.Prelude.{
  ℕ, ◌≡◌, refl, compare, Bool, Option, none, some, is_none, List, ◌++◌, arith, All, count_if, drop,
  take-append-drop, length, length-take, count_if-all, min, true,
}
use rustydht_lib.Common.Error.{ok}
use rustydht_lib.Common.Id.{NodeId, IsId, xor, partial_cmp}
use rustydht_lib.Common.Id.Order.{value, partial_cmp-value}
use rustydht_lib.Common.Id.Distance.{xor-IsId}
use rustydht_lib.Common.Net.{SocketAddr}
use rustydht_lib.Packets.Message.{Message, MessageType, RequestSpecific}
use rustydht_lib.Packets.Builder
use rustydht_lib.Packets.Builder.{or_else}
use rustydht_lib.Storage.Sort.{UnstableSort, IsSortedBy, count_if-perm}
use rustydht_lib.Dht.Operations.{
  GetPeersResponder, responder_cmp, get_peers_result, announce_packet, announce_targets,
}

-- The distance of a responder to the torrent, as a number.
abbrev pub responder_distance : NodeId → GetPeersResponder → ℕ
responder_distance info_hash r = value (xor r.node.id info_hash).bytes

cmp-responder_distance :
    (info_hash : NodeId) (a b : GetPeersResponder)
    → IsId info_hash
    → IsId a.node.id
    → IsId b.node.id
    → responder_cmp info_hash a b
      ≡ compare (responder_distance info_hash a) (responder_distance info_hash b)
unfolding responder_cmp partial_cmp
cmp-responder_distance info_hash a b h ha hb = ground (
  arith,
  partial_cmp-value (xor a.node.id info_hash) (xor b.node.id info_hash) (xor-IsId ha h)
      (xor-IsId hb h),
)

-- `announce_peer` announces to 8 responders, or to all if there are fewer: those that are nearest
-- to the torrent of all that replied to `get_peers`, each as often as it replied. The rest are at
-- least as far. The ids of the torrent and of the responders are ids.
pub announce_targets_lem :
    (sort : UnstableSort GetPeersResponder) (info_hash : NodeId) (peers : List SocketAddr)
    (responders : List GetPeersResponder)
    → IsId info_hash
    → All (λ r. IsId r.node.id) responders
    → (rest : List GetPeersResponder) × (length
          (announce_targets (get_peers_result sort info_hash peers responders))
        ≡ min 8 (length responders))
      × IsSortedBy
          (responder_distance info_hash)
          (announce_targets (get_peers_result sort info_hash peers responders) ++ rest)
      × ((p : GetPeersResponder → Bool)
          → count_if p (announce_targets (get_peers_result sort info_hash peers responders) ++ rest)
            ≡ count_if p responders)
unfolding announce_targets get_peers_result
announce_targets_lem sort info_hash peers responders h hs =
    let sorted = sort.sort_by (responder_cmp info_hash) responders in
    (
      drop 8 sorted,
      omega (
        arith,
        length-take 8 sorted,
        count_if-all sorted,
        count_if-all responders,
        count_if-perm (λ _. true) (sort.sort_by-perm (responder_cmp info_hash) responders),
      ),
      rw (take-append-drop 8 sorted) (
          sort.sort_by-IsSortedBy (responder_cmp info_hash) (responder_distance info_hash)
            (λ r. IsId r.node.id) responders
            (λ a b ha hb. cmp-responder_distance info_hash a b h ha hb) hs),
      λ p.
          rw (take-append-drop 8 sorted)
            (count_if-perm p (sort.sort_by-perm (responder_cmp info_hash) responders)),
    )

-- The request can always be built: it has the responder's token and our port, or asks for the
-- source's port if we gave none.
pub announce_packet_lem :
    (our_id : NodeId) (read_only : Bool) (info_hash : NodeId) (port : Option ℕ)
    (r : GetPeersResponder) (random : List ℕ)
    → (m : Message) × (announce_packet our_id read_only info_hash port r random ≡ some (ok m))
      × (m.message_type
          ≡ MessageType.request (
              RequestSpecific.announce_peer_request (record {
                requester_id = our_id;
                info_hash = info_hash;
                port = or_else port 0;
                implied_port = some (is_none port);
                token = r.token;
              })))
unfolding announce_packet Builder.build Builder.build_as Builder.build_announce_peer_request
    Builder.build_request_common Builder.required_or_error Builder.implied_port_of
    Builder.new_announce_peer_request Builder.new
announce_packet_lem our_id read_only info_hash none r random = (_, refl, refl)
announce_packet_lem our_id read_only info_hash (some port) r random = (_, refl, refl)
