-- ===== src/Tests/Loops.antt =====
-- src/dht/dht.rs: the theorem on the loop over incoming packets at a ping.
use rustydht_lib.Prelude.{ℕ, ◌≡◌, refl, ◌∙◌, inl, inr, false, none, some, ◌==◌, arith}
use rustydht_lib.Common.Error.{ok}
use rustydht_lib.Common.Net.{ip_eq}
use rustydht_lib.Common.Id.{bytes_eq, IsId}
use rustydht_lib.Packets.Message.{Message, MessageType, request_author, RequestSpecific}
use rustydht_lib.Storage.Throttler.{Throttler, check_throttle}
use rustydht_lib.Storage.Throttler
use rustydht_lib.Dht.Handlers.{Sent, Handled, accept_single_packet}
use rustydht_lib.Dht.Accepting.{accept_request_lem}
use rustydht_lib.Dht.Settings.{default}
use rustydht_lib.Dht.Maintenance.{TrySend, incoming, answered, notified}
use rustydht_lib.Dht.Loop.{incoming_lem, notified-result}
use rustydht_lib.Tests.Data.{id_of, id_of-IsId, local_ip, local_address}
use rustydht_lib.Tests.Throttling.{table}
use rustydht_lib.Tests.Nodes.{world, node, node-IsDht, clock, packet}

abbrev ping : Message
ping =
    packet (MessageType.request (RequestSpecific.ping_request (record { requester_id = id_of 2 })))

abbrev open_channel : ℕ → TrySend
open_channel sub = TrySend.done

pinger-IsId :
    IsId (request_author (RequestSpecific.ping_request (record { requester_id = id_of 2 })))
unfolding request_author
pinger-IsId = id_of-IsId 2 (omega arith)

passes :
    (t' : Throttler) × (check_throttle table local_address.ip none none 15 15 ≡ some (false, t'))
unfolding check_throttle Throttler.answer Throttler.scan Throttler.update_found Throttler.is_too_old
    Throttler.judge Throttler.count_packets Throttler.saturating_add ip_eq bytes_eq
passes = (_, refl)

incoming_run :
    (t' : Throttler) × (h : Handled world) × (sent : Sent) × (incoming world table node clock 15 15
        open_channel ping local_address
      ≡ some (t', h))
    × (h.result ≡ ok (some sent))
unfolding incoming answered default
incoming_run =
    let a =
      accept_request_lem world node clock ping local_ip 6881
        (RequestSpecific.ping_request (record { requester_id = id_of 2 })) node-IsDht refl
        pinger-IsId in
    elim a.4 [
      | inl p ↦ (
        passes.0,
        notified world open_channel a.0,
        p.1.0,
        rw (incoming, passes.1, a.1) refl,
        notified-result world open_channel a.0 ∙ p.1.1,
      )
      | inr p ↦ absurd (ground (arith, p.0))
    ]

incoming_example :
    (check_throttle table local_address.ip none none 15 15 ≡ some (false, incoming_run.0))
    × ((local_address.port == 0) ≡ false)
    × (node.settings.read_only ≡ false)
    × ((h' : Handled world) × (accept_single_packet world node clock ping local_address ≡ some h')
        × (h'.result ≡ ok (some incoming_run.2)))
incoming_example =
    incoming_lem world table incoming_run.0 node clock 15 15 open_channel ping local_address
      incoming_run.1 incoming_run.2 incoming_run.3 incoming_run.4
