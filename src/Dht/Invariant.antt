-- ===== src/Dht/Invariant.antt =====
-- src/dht/dht.rs: the invariant of a node's state, and the changes of the state that keep it.
use rustydht_lib.Prelude.{
  ℕ, ◌<◌, ◌≡◌, refl, ap, ◌∙◌, inl, inr, Bool, true, false, ◌&&◌, not, Option, none, some, is_some,
  Bool-cases, Option-cases, length, All,
}
use rustydht_lib.Common.Id.{NodeId, IsId, IsByte}
use rustydht_lib.Common.Magic.{is_valid_for_ip, Draws}
use rustydht_lib.Common.Magic.Valid.{is_valid_for_ip-from_ip, is_valid_for_ip_v4}
use rustydht_lib.Common.Net.{Ipv4Addr, v4, Node}
use rustydht_lib.Storage.PeerStorage.Swarms.{IsPeerStorage}
use rustydht_lib.Dht.Handlers.{to_secs}
use rustydht_lib.Dht.State.{
  World, DhtState, Clock, add_node, admit, or_false, move_to, ip4_maintenance,
}

-- The routing table is well-formed around our id, and so are the other parts; the sample interval
-- of the settings is not negative.
pub record IsDht (w : World) (s : DhtState w) : Type 0 where
  pub is_id : IsId s.our_id
  pub table : w.nodes.IsStorage s.our_id s.buckets
  pub source : w.source.IsSource s.ip4_source
  pub peers : IsPeerStorage w.swarms w.torrents s.peer_storage
  pub interval : is_some (to_secs s.settings.min_sample_interval_secs) ≡ true

-- What the generator draws for a new id.
abbrev pub IsDraws : Draws → Type 0
IsDraws d = (d.seed < 256) × (d.low < 256) × (length d.middle ≡ 16) × All IsByte d.middle

module _ (w : World) where
  -- A node that joins the table, seen or verified.
  pub add_node-IsDht :
      (s : DhtState w) (node : Node) (verified : Bool) (clock : Clock)
      → IsDht w s
      → IsId node.id
      → (s' : DhtState w) × (add_node w s node verified clock ≡ some s')
        × IsDht w s'
        × (s'.our_id ≡ s.our_id)
        × (s'.settings ≡ s.settings)
        × (s'.peer_storage ≡ s.peer_storage)
        × (s'.token_secret ≡ s.token_secret)
        × (s'.old_token_secret ≡ s.old_token_secret)
  unfolding add_node
  add_node-IsDht s node verified clock h hn =
      let p =
        w.nodes.add_or_update-IsStorage s.our_id s.buckets node verified clock.updated clock.wrapped
          h.table hn in
      (
        record s { buckets = p.0 },
        rw (add_node, p.1) refl,
        record {
          is_id = h.is_id;
          table = p.2;
          source = h.source;
          peers = h.peers;
          interval = h.interval;
        },
        refl,
        refl,
        refl,
        refl,
        refl,
      )

  -- A request from an IPv4 address, by an author whose id is an id, does not make the node panic
  -- before it is handled, and changes no more than the table.
  pub admit-IsDht :
      (s : DhtState w) (clock : Clock) (ip : Ipv4Addr) (port : ℕ) (read_only : Option Bool)
      (id : NodeId)
      → IsDht w s
      → IsId id
      → (s' : DhtState w) × (admit w s clock (record { ip = v4 ip; port = port }) read_only id
          ≡ some s')
        × IsDht w s'
        × (s'.our_id ≡ s.our_id)
        × (s'.settings ≡ s.settings)
        × (s'.peer_storage ≡ s.peer_storage)
        × (s'.token_secret ≡ s.token_secret)
        × (s'.old_token_secret ≡ s.old_token_secret)
  unfolding admit
  admit-IsDht s clock ip port read_only id h hid =
      let v = is_valid_for_ip_v4 w.checksum id ip in
      elim (Bool-cases (v.0 && not (or_false read_only))) [
        | inl e ↦
            let p =
              add_node-IsDht s (record { id = id; address = record { ip = v4 ip; port = port } })
                false clock h hid in
            (p.0, rw (admit, v.1, e) p.1, p.2, p.3, p.4, p.5, p.6, p.7)
        | inr e ↦ (s, rw (admit, v.1, e) refl, h, refl, refl, refl, refl, refl)
      ]

  -- A new id fits the address that it is made for.
  pub move_to_lem :
      (s : DhtState w) (draws : Draws) (ip : Ipv4Addr)
      → IsDht w s
      → IsDraws draws
      → (s' : DhtState w) × (move_to w s draws ip ≡ some s')
        × IsDht w s'
        × (is_valid_for_ip w.checksum s'.our_id (v4 ip) ≡ some true)
        × (s'.ip4_source ≡ s.ip4_source)
  unfolding move_to
  move_to_lem s draws ip h hd =
      let v = is_valid_for_ip_v4 w.checksum s.our_id ip in
      elim (Bool-cases v.0) [
        | inl e ↦ (s, rw (move_to, v.1, e) refl, h, v.1 ∙ ap some e, refl)
        | inr e ↦
            let new = is_valid_for_ip-from_ip w.checksum draws ip hd.0 hd.1 hd.2 hd.3 in
            (
              record s { our_id = new.0; buckets = w.nodes.set_id s.buckets new.0 },
              rw (move_to, v.1, e, new.1) refl,
              record {
                is_id = new.2;
                table = w.nodes.set_id-IsStorage s.buckets new.0 new.2;
                source = h.source;
                peers = h.peers;
                interval = h.interval;
              },
              new.3,
              refl,
            )
      ]

  -- Whether the id fits the address that is best, if one is.
  abbrev pub Fits : NodeId → Option Ipv4Addr → Type 0
  Fits id none = Unit
  Fits id (some ip) = is_valid_for_ip w.checksum id (v4 ip) ≡ some true

  -- A round of the maintenance of the address does not panic, and keeps the invariant. The source
  -- is decayed once. If it has a best address after that, our id is valid for it afterwards.
  pub ip4_maintenance_lem :
      (s : DhtState w) (draws : Draws)
      → IsDht w s
      → IsDraws draws
      → (s' : DhtState w) × (best : Option Ipv4Addr) × (ip4_maintenance w s draws ≡ some s')
        × (s'.ip4_source ≡ w.source.decay s.ip4_source)
        × (w.source.get_best_ipv4 s'.ip4_source ≡ some best)
        × IsDht w s'
        × Fits s'.our_id best
  unfolding ip4_maintenance move_to
  ip4_maintenance_lem s draws h hd =
      let old : DhtState w = record s { ip4_source = w.source.decay s.ip4_source } in
      let ok : IsDht w old = record {
        is_id = h.is_id;
        table = h.table;
        source = w.source.decay-IsSource s.ip4_source h.source;
        peers = h.peers;
        interval = h.interval;
      } in
      let p = w.source.get_best-total old.ip4_source ok.source in
      elim (Option-cases p.0) [
        | inl e ↦
            let run : w.source.get_best_ipv4 old.ip4_source ≡ some none = p.1 ∙ ap some e in
            (old, none, rw (ip4_maintenance, run) refl, refl, run, ok, tt)
        | inr (ip, e) ↦
            let run : w.source.get_best_ipv4 old.ip4_source ≡ some (some ip) = p.1 ∙ ap some e in
            let q = move_to_lem old draws ip ok hd in
            (
              q.0,
              some ip,
              rw (ip4_maintenance, run) q.1,
              q.4,
              ap w.source.get_best_ipv4 q.4 ∙ run,
              q.2,
              q.3,
            )
      ]
