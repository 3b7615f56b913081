-- ===== src/Dht/Runs.antt =====
-- src/dht/dht.rs: a node from its start on, in any order of packets, responses and rounds of its
-- periodic tasks. The lock of the state makes each of them a step.
use rustydht_lib.Prelude.{
  ℕ, ◌≤◌, ◌<◌, ◌≡◌, refl, ap, ◌∙◌, sym, inl, inr, ◌⊎◌, Bool, true, false, Bool-cases, [], ◌∷◌,
  Option, none, some, List, is_some, All,
}
use mathlib.Core.Path.{subst}
use mathlib.Core.Option.{some_inj}
use rustydht_lib.Common.Error.{Result, ok, err, general_error}
use rustydht_lib.Common.Id.{NodeId, IsId}
use rustydht_lib.Common.Magic.{from_ip, Draws}
use rustydht_lib.Common.Magic.Valid.{is_valid_for_ip-from_ip}
use rustydht_lib.Common.Net.{Ipv4Addr, v4, SocketAddr}
use rustydht_lib.Packets.Message.{
  Message, RequestSpecific, ResponseSpecific, MessageType, request_author, response_author,
}
use rustydht_lib.Storage.PeerStorage.{PeerStorage, get_peers}
use rustydht_lib.Storage.PeerStorage
use rustydht_lib.Storage.PeerStorage.Swarms.{IsPeerStorage, get_peers_lem}
use rustydht_lib.Storage.PeerStorage.Announcing.{new-IsPeerStorage}
use rustydht_lib.Dht.Settings.{DhtSettings}
use rustydht_lib.Dht.State.{World, DhtState, Clock, rotate_token_secrets, ip4_maintenance}
use rustydht_lib.Dht.Handlers.{Handled, to_secs, accept_single_packet}
use rustydht_lib.Dht.Invariant.{IsDht, IsDraws, ip4_maintenance_lem}
use rustydht_lib.Dht.Accepting.{accept_request_lem}
use rustydht_lib.Dht.Requests.{handle_reply}
use rustydht_lib.Dht.Responses.{IsNode4, nodes_of, handle_reply_lem}
use rustydht_lib.Dht.Maintenance.{
  Seeds, first_id, initial, new, infos_for, get_info_hashes, TrySend, subscribe,
  send_packet_to_subscribers, buddy_prune,
}

abbrev at_port : Ipv4Addr → ℕ → SocketAddr
at_port ip port = record { ip = v4 ip; port = port }

-- What can happen to a node.
pub data Step (w : World) : DhtState w → DhtState w → Type 1 where
  request :
      (s : DhtState w) (clock : Clock) (msg : Message) (ip : Ipv4Addr) (port : ℕ)
      (req : RequestSpecific) (h : Handled w)
      → msg.message_type ≡ MessageType.request req
      → IsId (request_author req)
      → accept_single_packet w s clock msg (at_port ip port) ≡ some h
      → Step w s h.state
  response :
      (s s' : DhtState w) (clocks : ℕ → Clock) (reply : Message) (ip : Ipv4Addr) (port : ℕ)
      (res : ResponseSpecific)
      → reply.message_type ≡ MessageType.response res
      → IsId (response_author res)
      → All IsNode4 (nodes_of res)
      → handle_reply w s clocks (at_port ip port) reply ≡ some (ok s')
      → Step w s s'
  maintain :
      (s s' : DhtState w) (draws : Draws)
      → IsDraws draws
      → ip4_maintenance w s draws ≡ some s'
      → Step w s s'
  rotate : (s : DhtState w) (secret : List ℕ) → Step w s (rotate_token_secrets w s secret)
  prune : (s : DhtState w) (now now' : ℕ) → Step w s (buddy_prune w s now now')
  notify :
      (s : DhtState w) (try_send : ℕ → TrySend) → Step w s (send_packet_to_subscribers w s try_send)
  join : (s : DhtState w) (tx : ℕ) → Step w s (subscribe w s tx)
  list : (s : DhtState w) (newer_than : Option ℕ) → Step w s (get_info_hashes w s newer_than).1

pub data Reach (w : World) (s : DhtState w) : DhtState w → Type 1 where
  here : Reach w s s
  next : {t u : DhtState w} → Reach w s t → Step w t u → Reach w s u

-- The settings that a node works with, and what the generator gives to it.
pub record IsSettings (settings : DhtSettings) : Type 0 where
  pub torrents : 1 ≤ settings.max_torrents
  pub torrents_few : settings.max_torrents < 2147483648
  pub peers : 1 ≤ settings.max_peers_per_torrent
  pub interval : is_some (to_secs settings.min_sample_interval_secs) ≡ true

abbrev pub IsSeeds : Seeds → Type 0
IsSeeds seeds = IsDraws seeds.draws × IsId seeds.random_id

abbrev pub IsGiven : Option NodeId → Type 0
IsGiven none = Unit
IsGiven (some id) = IsId id

module _ (w : World) where
  start_lem :
      (seeds : Seeds) (best : Option Ipv4Addr)
      → IsSeeds seeds
      → (our_id : NodeId) × (elim best [
        | none ↦ some seeds.random_id
        | some ip ↦ from_ip w.checksum seeds.draws (v4 ip)
      ]
          ≡ some our_id)
        × IsId our_id
  start_lem seeds none h = (seeds.random_id, refl, h.1)
  start_lem seeds (some ip) h =
      let p = is_valid_for_ip-from_ip w.checksum seeds.draws ip h.0.0 h.0.1 h.0.2 h.0.3 in
      (p.0, p.1, p.2)

  first_id_lem :
      (seeds : Seeds) (id : Option NodeId) (source : w.source.Source)
      → IsSeeds seeds
      → IsGiven id
      → w.source.IsSource source
      → (our_id : NodeId) × (first_id w seeds id source ≡ some our_id) × IsId our_id
  unfolding first_id
  first_id_lem seeds (some id) source h given k = (id, refl, given)
  first_id_lem seeds none source h given k =
      let best = w.source.get_best-total source k in
      let p = start_lem seeds best.0 h in (p.0, rw (first_id, best.1) p.1, p.2)

  initial-IsDht :
      (seeds : Seeds) (our_id : NodeId) (source : w.source.Source) (buckets : w.nodes.Storage)
      (settings : DhtSettings)
      → IsId our_id
      → w.source.IsSource source
      → IsSettings settings
      → IsDht w (initial w our_id seeds source buckets settings)
  unfolding initial
  initial-IsDht seeds our_id source buckets settings is_id k room = record {
    is_id = is_id;
    table = w.nodes.set_id-IsStorage buckets our_id is_id;
    source = k;
    peers =
        new-IsPeerStorage w.swarms w.torrents settings.max_torrents settings.max_peers_per_torrent
          room.torrents room.torrents_few room.peers;
    interval = room.interval;
  }

  -- `DHT::new`, with settings that leave room for torrents and peers, does not panic. If the socket
  -- can be bound to the address, the state keeps the invariant; else it is an error.
  pub new_lem :
      (binds : SocketAddr → Bool) (seeds : Seeds) (id : Option NodeId) (socket_addr : SocketAddr)
      (source : w.source.Source) (buckets : w.nodes.Storage) (settings : DhtSettings)
      → IsSeeds seeds
      → IsGiven id
      → w.source.IsSource source
      → IsSettings settings
      → (binds socket_addr ≡ true)
          × ((s : DhtState w) × (new w binds seeds id socket_addr source buckets settings
                ≡ some (ok s))
              × IsDht w s)
        ⊎ (binds socket_addr ≡ false)
          × (new w binds seeds id socket_addr source buckets settings ≡ some (err general_error))
  unfolding new
  new_lem binds seeds id socket_addr source buckets settings h given k room =
      let p = first_id_lem seeds id source h given k in
      elim (Bool-cases (binds socket_addr)) [
        | inl e ↦ inl (
          e,
          (
            initial w p.0 seeds source buckets settings,
            rw (new, p.1, e) refl,
            initial-IsDht seeds p.0 source buckets settings p.2 k room,
          ),
        )
        | inr e ↦ inr (e, rw (new, p.1, e) refl)
      ]

  abbrev or_state : DhtState w → Result (DhtState w) → DhtState w
  or_state d (ok s) = s
  or_state d (err e) = d

  -- The look at the peers of all torrents.
  infos_for-IsPeerStorage :
      (peers : PeerStorage w.swarms w.torrents) (newer_than : Option ℕ) (hashes : List NodeId)
      → IsPeerStorage w.swarms w.torrents peers
      → IsPeerStorage w.swarms w.torrents (infos_for w peers newer_than hashes).1
  unfolding infos_for get_peers
  infos_for-IsPeerStorage peers newer_than [] k = k
  infos_for-IsPeerStorage peers newer_than (h ∷ hs) k =
      infos_for-IsPeerStorage (get_peers w.swarms w.torrents peers h newer_than).1 newer_than hs
        (get_peers_lem w.swarms w.torrents peers h h newer_than
          (at_port (record { a = 127; b = 0; c = 0; d = 1 }) 0) k).2

  Step-IsDht : {s t : DhtState w} → Step w s t → IsDht w s → IsDht w t
  unfolding rotate_token_secrets buddy_prune send_packet_to_subscribers subscribe get_info_hashes
  Step-IsDht (request s clock msg ip port req h is author run) k =
      let p = accept_request_lem w s clock msg ip port req k is author in
      subst (λ z. IsDht w z.state) (some_inj.0 (sym p.1 ∙ run)) p.2
  Step-IsDht (response s s' clocks reply ip port res is author nodes run) k =
      let p = handle_reply_lem w s clocks ip port reply res k is author nodes in
      subst (IsDht w) (ap (or_state s) (some_inj.0 (sym p.1 ∙ run))) p.2
  Step-IsDht (maintain s s' draws drawn run) k =
      let p = ip4_maintenance_lem w s draws k drawn in
      subst (IsDht w) (some_inj.0 (sym p.2 ∙ run)) p.5
  Step-IsDht (rotate s secret) k = record {
    is_id = k.is_id;
    table = k.table;
    source = k.source;
    peers = k.peers;
    interval = k.interval;
  }
  Step-IsDht (prune s now now') k = record {
    is_id = k.is_id;
    table = w.nodes.prune-IsStorage s.our_id s.buckets now now' _ _ k.table;
    source = k.source;
    peers = k.peers;
    interval = k.interval;
  }
  Step-IsDht (notify s try_send) k = record {
    is_id = k.is_id;
    table = k.table;
    source = k.source;
    peers = k.peers;
    interval = k.interval;
  }
  Step-IsDht (join s tx) k = record {
    is_id = k.is_id;
    table = k.table;
    source = k.source;
    peers = k.peers;
    interval = k.interval;
  }
  Step-IsDht (list s newer_than) k = record {
    is_id = k.is_id;
    table = k.table;
    source = k.source;
    peers =
        infos_for-IsPeerStorage s.peer_storage newer_than
          (PeerStorage.get_info_hashes w.swarms w.torrents s.peer_storage) k.peers;
    interval = k.interval;
  }

  -- After any sequence of requests and responses of IPv4 nodes whose ids are ids, of rounds of the
  -- periodic tasks, of new subscribers and of looks at the peers, a state keeps the invariant: the routing table
  -- stays well-formed around the node's id, which is an id at all times, and so do the votes for its
  -- address and the peers.
  pub Reach-IsDht : {s t : DhtState w} → Reach w s t → IsDht w s → IsDht w t
  Reach-IsDht here k = k
  Reach-IsDht (next r st) k = Step-IsDht st (Reach-IsDht r k)
