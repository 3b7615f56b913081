-- ===== src/Dht/Maintenance.antt =====
-- src/dht/dht.rs: `DHT::new`, where the socket is only whether it can be bound, what is asked of a node, the rounds
-- of its periodic tasks, and the loop over incoming packets. The pauses between the rounds, and the
-- packets on their way, are tokio's. src/dht/builder.rs: `DHTBuilder`.
use rustydht_lib.Prelude.{
  ℕ, Bool, true, false, ◌||◌, not, Option, none, some, List, [], ◌∷◌, ◌++◌, ltb, leb, ◌==◌,
  if◌then◌else◌,
}
use rustydht_lib.Prelude.Maybe.{◌>>=◌}
use rustydht_lib.Common.Error.{
  RustyDhtError, Result, ok, err, packet_parse_error, packet_serialization_error, general_error,
  conntrack_error, socket_send_error, socket_recv_error, timeout_error, shutdown_error,
  builder_missing_field_error, builder_invalid_combo_error,
}
use rustydht_lib.Common.Id.{NodeId}
use rustydht_lib.Common.Magic.{from_ip, make_mutant, Draws}
use rustydht_lib.Common.Net.{v4, SocketAddr, is_ipv4, Node}
use rustydht_lib.Packets.Message.{Message}
use rustydht_lib.Storage.NodeWrapper.{NodeWrapper}
use rustydht_lib.Storage.NodeBucketStorage.{checked_sub}
use rustydht_lib.Storage.PeerStorage.{PeerInfo, get_peers_info}
use rustydht_lib.Storage.PeerStorage
use rustydht_lib.Storage.Throttler.{Throttler, check_throttle}
use rustydht_lib.Storage.Throttler
use rustydht_lib.Dht.Event.{DhtEvent, message_received}
use rustydht_lib.Dht.Settings.{DhtSettings}
use rustydht_lib.Dht.State.{World, DhtState, from_secs, Clock}
use rustydht_lib.Dht.Handlers.{Handled, accept_single_packet}

-- What the generator gives to a new node: for an id of an address, a whole id, and the secret.
pub record Seeds : Type 0 where
  pub draws : Draws
  pub random_id : NodeId
  pub secret : List ℕ

-- What `try_send` on a subscriber's channel gives.
pub data TrySend : Type 0 where
  done full closed : TrySend

-- The channel stays, except a closed one.
unfoldable pub is_kept : TrySend → Bool
is_kept done = true
is_kept full = true
is_kept closed = false

unfoldable pub retain_open : (ℕ → TrySend) → List ℕ → List ℕ
retain_open try_send [] = []
retain_open try_send (sub ∷ subs) =
    if is_kept (try_send sub) then sub ∷ retain_open try_send subs else retain_open try_send subs

unfoldable pub event_of : Message → DhtEvent
event_of msg = record { event_type = message_received (record { message = msg }) }

-- `ping_if_older_than`, with what it leaves out of the verified and the unverified nodes.
unfoldable pub is_due : ℕ → NodeWrapper → Bool
is_due ping_if_older_than wrapper = elim wrapper.last_verified [
  | none ↦ true
  | some last_verified ↦ not (leb ping_if_older_than last_verified)
]

unfoldable pub due : ℕ → List NodeWrapper → List Node
due ping_if_older_than [] = []
due ping_if_older_than (x ∷ xs) =
    if is_due ping_if_older_than x
    then x.node ∷ due ping_if_older_than xs
    else due ping_if_older_than xs

-- The errors that the loop over incoming packets goes on after.
unfoldable pub goes_on : RustyDhtError → Bool
goes_on packet_parse_error = true
goes_on conntrack_error = true
goes_on packet_serialization_error = false
goes_on general_error = false
goes_on socket_send_error = false
goes_on socket_recv_error = false
goes_on timeout_error = false
goes_on shutdown_error = false
goes_on (builder_missing_field_error field) = false
goes_on (builder_invalid_combo_error combo) = false

-- `Throttler::<32>::new`, at the time `now`.
unfoldable pub new_throttler : DhtSettings → ℕ → Throttler
new_throttler settings now =
    Throttler.new 32 now settings.throttle_packet_count (from_secs settings.throttle_period_secs)
      (from_secs settings.throttle_naughty_timeout_secs)
      (from_secs settings.throttle_max_tracking_secs)

-- The first IPv4 address that a router's name resolves to.
unfoldable pub router_address : List SocketAddr → Option SocketAddr
router_address [] = none
router_address (a ∷ rest) = if is_ipv4 a.ip then some a else router_address rest

module _ (w : World) where
  -- The id that was given, else one for our address, else a random one.
  unfoldable pub first_id : Seeds → Option NodeId → w.source.Source → Option NodeId
  first_id seeds (some id) source = some id
  first_id seeds none source = do
    best ← w.source.get_best_ipv4 source
    elim best [ none ↦ some seeds.random_id | some ip ↦ from_ip w.checksum seeds.draws (v4 ip) ]

  -- The state of a new node.
  unfoldable pub initial :
      NodeId → Seeds → w.source.Source → w.nodes.Storage → DhtSettings → DhtState w
  initial our_id seeds ip4_source buckets settings = record {
    ip4_source = ip4_source;
    our_id = our_id;
    buckets = w.nodes.set_id buckets our_id;
    peer_storage =
        PeerStorage.new w.swarms w.torrents settings.max_torrents settings.max_peers_per_torrent;
    token_secret = seeds.secret;
    old_token_secret = seeds.secret;
    settings = settings;
    subscribers = [];
  }

  -- `binds` tells whether the system binds a UDP socket to the address, makes it nonblocking and
  -- gives it to tokio.
  unfoldable pub new :
      (SocketAddr → Bool)
      → Seeds
      → Option NodeId
      → SocketAddr
      → w.source.Source
      → w.nodes.Storage
      → DhtSettings
      → Option (Result (DhtState w))
  unfolding first_id initial
  new binds seeds id socket_addr ip4_source buckets settings = do
    our_id ← first_id seeds id ip4_source
    some (
        if binds socket_addr
        then ok (initial our_id seeds ip4_source buckets settings)
        else err general_error)

  unfoldable pub get_id : DhtState w → NodeId
  get_id s = s.our_id

  unfoldable pub get_nodes : DhtState w → List NodeWrapper
  get_nodes s = w.nodes.get_all_verified s.buckets

  unfoldable pub get_settings : DhtState w → DhtSettings
  get_settings s = s.settings

  -- The torrents with a peer. The cache changes with every look at it, behind the shared reference.
  unfoldable pub infos_for :
      PeerStorage.PeerStorage w.swarms w.torrents
      → Option ℕ
      → List NodeId
      → List (NodeId × List PeerInfo) × PeerStorage.PeerStorage w.swarms w.torrents
  infos_for peers newer_than [] = ([], peers)
  infos_for peers newer_than (hash ∷ hashes) =
      let got = get_peers_info w.swarms w.torrents peers hash newer_than in
      let rest = infos_for got.1 newer_than hashes in
      (elim got.0 [ [] ↦ rest.0 | x ∷ xs ↦ (hash, got.0) ∷ rest.0 ], rest.1)

  unfoldable pub get_info_hashes :
      DhtState w → Option ℕ → List (NodeId × List PeerInfo) × DhtState w
  unfolding infos_for
  get_info_hashes s newer_than =
      let got =
        infos_for s.peer_storage newer_than
          (PeerStorage.get_info_hashes w.swarms w.torrents s.peer_storage) in
      (got.0, record s { peer_storage = got.1 })

  unfoldable pub subscribe : DhtState w → ℕ → DhtState w
  subscribe s tx = record s { subscribers = s.subscribers ++ tx ∷ [] }

  unfoldable pub send_packet_to_subscribers : DhtState w → (ℕ → TrySend) → DhtState w
  send_packet_to_subscribers s try_send = record s {
    subscribers = retain_open try_send s.subscribers;
  }

  -- A round of `periodic_buddy_ping`: the table is pruned, and these nodes are pinged.
  unfoldable pub buddy_prune : DhtState w → ℕ → ℕ → DhtState w
  buddy_prune s now now' = record s {
    buckets =
        w.nodes.prune s.buckets now now' (from_secs s.settings.reverify_grace_period_secs)
          (from_secs s.settings.verify_grace_period_secs);
  }

  unfoldable pub buddies : DhtState w → ℕ → List Node
  buddies s now = elim (checked_sub now (from_secs s.settings.reverify_interval_secs)) [
    | none ↦ []
    | some ping_if_older_than ↦
        due ping_if_older_than (w.nodes.get_all_unverified s.buckets)
        ++ due ping_if_older_than (w.nodes.get_all_verified s.buckets)
  ]

  -- A round of `periodic_find_node`: whether the routers are pinged, and the nodes that are asked
  -- for an id near ours, which the random one gives.
  unfoldable pub pings_routers : DhtState w → Bool
  pings_routers s = (w.nodes.count s.buckets).1 == 0

  unfoldable pub asked_nodes : DhtState w → NodeId → Option (Option (NodeId × List Node))
  asked_nodes s random =
      if ltb s.settings.find_nodes_skip_count (w.nodes.count s.buckets).0
      then some none
      else elim (make_mutant s.our_id 4 random) [
        | err e ↦ none
        | ok id_near_us ↦
            some (some (id_near_us, w.nodes.get_nearest_nodes s.buckets id_near_us none))
      ]

  -- A packet in the loop of `accept_incoming_packets`: the throttler, port 0, the answer, unless we
  -- only read, and the subscribers. `clock` is the throttler's.
  unfoldable pub answered : DhtState w → Clock → Message → SocketAddr → Option (Handled w)
  answered s clock msg addr =
      if s.settings.read_only
      then some (record { state = s; result = ok none })
      else accept_single_packet w s clock msg addr

  unfoldable pub notified : (ℕ → TrySend) → Handled w → Handled w
  unfolding send_packet_to_subscribers
  notified try_send h = elim h.result [
    | err e ↦ h
    | ok reply ↦ record h { state = send_packet_to_subscribers h.state try_send }
  ]

  unfoldable pub incoming :
      Throttler
      → DhtState w
      → Clock
      → ℕ
      → ℕ
      → (ℕ → TrySend)
      → Message
      → SocketAddr
      → Option (Throttler × Handled w)
  unfolding answered notified
  incoming t s clock now clear_now try_send msg addr = do
    (throttled, t') ← check_throttle t addr.ip none none now clear_now
    if throttled || (addr.port == 0)
        then some (t', record { state = s; result = ok none })
        else (do h ← answered s clock msg addr; some (t', notified try_send h))
