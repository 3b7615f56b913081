-- ===== src/Dht/Loop.antt =====
-- src/dht/dht.rs: the loop over incoming packets, and src/dht/builder.rs: a node with the defaults.
use rustydht_lib.Prelude.{
  ℕ, ◌≡◌, refl, ap, ◌∙◌, sym, ◌⊎◌, inl, inr, Bool, true, false, ◌||◌, Option, none, some, arith,
  Bool-cases, Option-cases, ◌==◌, List,
}
use mathlib.Core.Option.{some_inj}
use rustydht_lib.Prelude.Maybe.{◌>>=◌, >>=-eq-some}
use rustydht_lib.Common.Consensus
use rustydht_lib.Common.Id.{zero_id}
use rustydht_lib.Storage.NodeBucketStorage
use rustydht_lib.Common.Consensus.Updates.{new-IsConsensus}
use rustydht_lib.Common.Error.{Result, ok, err, general_error}
use rustydht_lib.Common.Id.{NodeId, id_eq}
use rustydht_lib.Common.Net.{v4, SocketAddr, sockaddr_eq}
use rustydht_lib.Packets.Message.{Message}
use rustydht_lib.Storage.Lru.{Lru}
use rustydht_lib.Storage.NodeWrapper.{NodeWrapper}
use rustydht_lib.Storage.PeerStorage.{PeerInfo}
use rustydht_lib.Storage.Sort.{UnstableSort}
use rustydht_lib.Storage.Throttler.{Throttler, check_throttle}
use rustydht_lib.Dht.Settings.{default}
use rustydht_lib.Dht.State.{World, DhtState, Clock}
use rustydht_lib.Dht.Handlers.{Sent, Handled, to_secs, accept_single_packet}
use rustydht_lib.Dht.Invariant.{IsDht}
use rustydht_lib.Dht.Maintenance.{Seeds, TrySend, answered, notified, incoming}
use rustydht_lib.Dht.Builder.{default_world, default_addr, new_builder, build}
use rustydht_lib.Dht.Runs.{IsSeeds, new_lem}

module _ (w : World) where
  pub notified-result :
      (try_send : ℕ → TrySend) (h : Handled w) → (notified w try_send h).result ≡ h.result
  unfolding notified
  notified-result try_send h =
      elim h.result as (λ r. (notified w try_send (record h { result = r })).result ≡ r) [
        | err e ↦ refl
        | ok reply ↦ refl
      ]

  abbrev result_of : Option (Throttler × Handled w) → Option (Result (Option Sent))
  result_of none = none
  result_of (some p) = some p.1.result

  abbrev map_result : Option (Handled w) → Option (Result (Option Sent))
  map_result none = none
  map_result (some h) = some h.result

  -- A packet that is answered.
  answered_lem :
      (s : DhtState w) (clock : Clock) (msg : Message) (addr : SocketAddr) (h : Handled w)
      (sent : Sent)
      → answered w s clock msg addr ≡ some h
      → h.result ≡ ok (some sent)
      → (s.settings.read_only ≡ false) × (accept_single_packet w s clock msg addr ≡ some h)
  unfolding answered
  answered_lem s clock msg addr h sent run res = elim (Bool-cases s.settings.read_only) [
    | inl e ↦
        let silent : answered w s clock msg addr ≡ some (record { state = s; result = ok none }) =
          rw (answered, e) refl in
        let clash : some (ok none) ≡ some (ok (some sent)) =
          sym (ap map_result silent) ∙ ap map_result run ∙ ap some res in
        absurd (ground (arith, clash))
    | inr e ↦
        let goes : answered w s clock msg addr ≡ accept_single_packet w s clock msg addr =
          rw (answered, e) refl in
        (e, sym goes ∙ run)
  ]

  abbrev finish : Throttler → (ℕ → TrySend) → Handled w → Option (Throttler × Handled w)
  finish t try_send h = some (t, notified w try_send h)

  -- After the throttler.
  passed_lem :
      (t' t'' : Throttler) (s : DhtState w) (clock : Clock) (try_send : ℕ → TrySend) (msg : Message)
      (addr : SocketAddr) (h : Handled w) (sent : Sent)
      → (answered w s clock msg addr >>= finish t'' try_send) ≡ some (t', h)
      → h.result ≡ ok (some sent)
      → (t'' ≡ t')
        × (s.settings.read_only ≡ false)
        × ((h' : Handled w) × (accept_single_packet w s clock msg addr ≡ some h')
            × (h'.result ≡ ok (some sent)))
  passed_lem t' t'' s clock try_send msg addr h sent run res =
      let m = >>=-eq-some (answered w s clock msg addr) (finish t'' try_send) run in
      let both = some_inj.0 m.2 in
      let result : m.0.result ≡ ok (some sent) =
        sym (notified-result try_send m.0) ∙ ap (λ p. p.1.result) both ∙ res in
      let a = answered_lem s clock msg addr m.0 sent m.1 result in
      (ap (λ p. p.0) both, a.0, (m.0, a.1, result))

  -- A packet is answered only if the throttler lets its address pass, it does not come from port 0,
  -- and we are not read-only; and then with what `accept_single_packet` answers.
  pub incoming_lem :
      (t t' : Throttler) (s : DhtState w) (clock : Clock) (now clear_now : ℕ)
      (try_send : ℕ → TrySend) (msg : Message) (addr : SocketAddr) (h : Handled w) (sent : Sent)
      → incoming w t s clock now clear_now try_send msg addr ≡ some (t', h)
      → h.result ≡ ok (some sent)
      → (check_throttle t addr.ip none none now clear_now ≡ some (false, t'))
        × ((addr.port == 0) ≡ false)
        × (s.settings.read_only ≡ false)
        × ((h' : Handled w) × (accept_single_packet w s clock msg addr ≡ some h')
            × (h'.result ≡ ok (some sent)))
  unfolding incoming
  incoming_lem t t' s clock now clear_now try_send msg addr h sent run res =
      elim (Option-cases (check_throttle t addr.ip none none now clear_now)) [
        | inl e ↦
            let panics : none ≡ incoming w t s clock now clear_now try_send msg addr =
              rw (incoming, e) refl in
            absurd (ground (arith, panics ∙ run))
        | inr ((b, t''), e) ↦ elim (Bool-cases (b || (addr.port == 0))) [
          | inl drop ↦
              let silent : incoming w t s clock now clear_now try_send msg addr
                  ≡ some (t'', record { state = s; result = ok none }) =
                rw (incoming, e, drop) refl in
              let clash : some (ok none) ≡ some (ok (some sent)) =
                sym (ap result_of silent) ∙ ap result_of run ∙ ap some res in
              absurd (ground (arith, clash))
          | inr pass ↦
              let goes : incoming w t s clock now clear_now try_send msg addr
                  ≡ (answered w s clock msg addr >>= finish t'' try_send) =
                rw (incoming, e, pass) refl in
              let a = passed_lem t' t'' s clock try_send msg addr h sent (sym goes ∙ run) res in
              let passes : b ≡ false = ground (arith, pass) in
              (e ∙ rw (passes, a.0) refl, ground (arith, pass), a.1, a.2)
        ]
      ]

-- A node that is built with the defaults of `DHTBuilder`: if the system binds a socket to port 6881 of
-- all addresses, it starts, with a state that keeps the invariant; if not, building it is an error,
-- and no panic.
pub build_lem :
    (sort : UnstableSort NodeWrapper) (swarms : Lru SocketAddr PeerInfo sockaddr_eq)
    (torrents : Lru NodeId swarms.Cache id_eq) (checksum : List ℕ → ℕ)
    (sample : ℕ → List NodeId → ℕ → List NodeId) (seeds : Seeds) (binds : SocketAddr → Bool)
    → IsSeeds seeds
    → (binds (record { ip = v4 (record { a = 0; b = 0; c = 0; d = 0 }); port = 6881 }) ≡ true)
        × ((s : DhtState (default_world sort swarms torrents checksum sample)) × (build sort swarms
                torrents checksum sample binds
                (new_builder sort swarms torrents checksum sample)
                seeds
              ≡ some (ok s))
            × IsDht (default_world sort swarms torrents checksum sample) s)
      ⊎ (binds (record { ip = v4 (record { a = 0; b = 0; c = 0; d = 0 }); port = 6881 }) ≡ false)
        × (build sort swarms torrents checksum sample binds
              (new_builder sort swarms torrents checksum sample)
              seeds
            ≡ some (err general_error))
unfolding build new_builder default to_secs
build_lem sort swarms torrents checksum sample seeds binds h =
    new_lem (default_world sort swarms torrents checksum sample) binds seeds none default_addr
      (Consensus.new 2 10) (NodeBucketStorage.new zero_id 8) default h tt
      (new-IsConsensus 2 10 (omega arith) (omega arith) (omega arith))
      (record {
        torrents = omega arith;
        torrents_few = omega arith;
        peers = omega arith;
        interval = refl;
      })
