-- ===== src/Dht/State.antt =====
-- src/dht/dht.rs: the state of a node, its tokens, and what it does with every incoming request
-- before it answers. An instant counts nanoseconds. `none` is a panic.
use rustydht_lib.Prelude.{
  ℕ, ◌*◌, ◌^◌, Bool, false, ◌&&◌, not, Option, none, some, List, ◌++◌, if◌then◌else◌,
}
use rustydht_lib.Prelude.Maybe.{◌>>=◌}
use rustydht_lib.Common.Error.{Result, ok, err, packet_parse_error}
use rustydht_lib.Common.Id.{NodeId, id_eq}
use rustydht_lib.Common.Magic.{be_bytes4, is_valid_for_ip, from_ip, Draws}
use rustydht_lib.Common.Net.{Ipv4Addr, IpAddr, v4, v6, octets, SocketAddr, sockaddr_eq, Node}
use rustydht_lib.Packets.Message.{Message, get_author_id}
use rustydht_lib.Storage.Lru.{Lru}
use rustydht_lib.Storage.PeerStorage.{PeerInfo, PeerStorage}
use rustydht_lib.Dht.Settings.{DhtSettings}
use rustydht_lib.Dht.Interfaces.{Ipv4AddrSource, NodeStorage}

-- What a node is built on. The checksum is `crc32::checksum_castagnoli`; `sample` is the first part
-- of `partial_shuffle`, for a state of the generator, a list and a length.
pub record World : Type 1 where
  pub source : Ipv4AddrSource
  pub nodes : NodeStorage
  pub swarms : Lru SocketAddr PeerInfo sockaddr_eq
  pub torrents : Lru NodeId swarms.Cache id_eq
  pub checksum : List ℕ → ℕ
  pub sample : ℕ → List NodeId → ℕ → List NodeId

-- A subscriber is a number that stands for its channel.
pub record DhtState (w : World) : Type 0 where
  pub ip4_source : w.source.Source
  pub our_id : NodeId
  pub buckets : w.nodes.Storage
  pub peer_storage : PeerStorage w.swarms w.torrents
  pub token_secret : List ℕ
  pub old_token_secret : List ℕ
  pub settings : DhtSettings
  pub subscribers : List ℕ

-- `Duration::from_secs`
abbrev pub from_secs : ℕ → ℕ
from_secs s = s * 10 ^ 9

abbrev pub ip_octets : IpAddr → List ℕ
ip_octets (v4 ip) = octets ip
ip_octets (v6 os) = os

unfoldable pub calculate_token : (List ℕ → ℕ) → SocketAddr → List ℕ → List ℕ
calculate_token checksum remote secret = be_bytes4 (checksum (ip_octets remote.ip ++ secret))

-- What the clock gives to `add_or_update` and in it, what it gives to the handler, and the state of
-- the generator.
pub record Clock : Type 0 where
  pub updated : ℕ
  pub wrapped : ℕ
  pub handled : ℕ
  pub draw : ℕ

abbrev pub or_false : Option Bool → Bool
or_false none = false
or_false (some b) = b

module _ (w : World) where
  unfoldable pub add_node : DhtState w → Node → Bool → Clock → Option (DhtState w)
  add_node s node verified clock = do
    buckets ← w.nodes.add_or_update s.buckets node verified clock.updated clock.wrapped
    some (record s { buckets = buckets })

  -- The node joins the routing table if its id is valid for its address, and it is not read-only.
  unfoldable pub admit :
      DhtState w → Clock → SocketAddr → Option Bool → NodeId → Option (DhtState w)
  unfolding add_node
  admit s clock remote_addr read_only sender_id = do
    is_id_valid ← is_valid_for_ip w.checksum sender_id remote_addr.ip
    if is_id_valid && not (or_false read_only)
        then add_node s (record { id = sender_id; address = remote_addr }) false clock
        else some s

  unfoldable pub common_request_handling :
      DhtState w → Clock → SocketAddr → Message → Option (Result (DhtState w))
  unfolding admit
  common_request_handling s clock remote_addr msg = elim (get_author_id msg) [
    | none ↦ some (err packet_parse_error)
    | some sender_id ↦ do s' ← admit s clock remote_addr msg.read_only sender_id; some (ok s')
  ]

  unfoldable pub rotate_token_secrets : DhtState w → List ℕ → DhtState w
  rotate_token_secrets s new_token_secret = record s {
    old_token_secret = s.token_secret;
    token_secret = new_token_secret;
  }

  -- The decay, and a new id if ours does not fit the address that is best then.
  unfoldable pub move_to : DhtState w → Draws → Ipv4Addr → Option (DhtState w)
  move_to s draws ip = do
    valid ← is_valid_for_ip w.checksum s.our_id (v4 ip)
    if valid then some s else do
      new_id ← from_ip w.checksum draws (v4 ip)
      some (record s { our_id = new_id; buckets = w.nodes.set_id s.buckets new_id })

  unfoldable pub ip4_maintenance : DhtState w → Draws → Option (DhtState w)
  unfolding move_to
  ip4_maintenance s draws = do
    best ← w.source.get_best_ipv4 (w.source.decay s.ip4_source)
    elim best [
      | none ↦ some (record s { ip4_source = w.source.decay s.ip4_source })
      | some ip ↦ move_to (record s { ip4_source = w.source.decay s.ip4_source }) draws ip
    ]
