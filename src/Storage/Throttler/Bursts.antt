-- ===== src/Storage/Throttler/Bursts.antt =====
-- src/storage/throttler.rs: runs of several checks of one address.
use rustydht_lib.Prelude.{
  ℕ, ◌+◌, ◌≤◌, ◌<◌, ◌≡◌, refl, ap, ◌∙◌, inl, inr, Bool, true, false, Option, none, some, List, [],
  ◌∷◌, arith, ltb, Bool-cases, length,
}
use rustydht_lib.Prelude.Maybe.{◌>>=◌}
use rustydht_lib.Common.Net.{IpAddr}
use rustydht_lib.Storage.Throttler.{
  ThrottlerRecord, Throttler, usize_max, saturating_add, judge, count_packets, is_too_old,
  check_throttle,
}
use rustydht_lib.Storage.Throttler.Table.{record_for}
use rustydht_lib.Storage.Throttler.Checks.{check_throttle_known, check_throttle_old}

-- Checks of one address, one packet each, at these times.
abbrev pub check_all : Throttler → IpAddr → List ℕ → Option (List Bool)
check_all t ip [] = some []
check_all t ip (now ∷ times) = do
  (over, t') ← check_throttle t ip (some now) none now now
  overs ← check_all t' ip times
  some (over ∷ overs)

-- Every check is before the expiration of the record, and within the tracking time.
abbrev pub IsBurst : Throttler → ThrottlerRecord → List ℕ → Type 0
IsBurst t r [] = Unit
IsBurst t r (now ∷ times) =
    (now < r.expiration)
    × (r.creation_time ≤ now)
    × (now ≤ r.creation_time + t.max_tracking)
    × IsBurst t (judge t now (record r { packets = r.packets + 1 })).1 times

-- Whether each packet after the first n ones is over the limit.
abbrev pub overs_after : ℕ → ℕ → List ℕ → List Bool
overs_after limit n [] = []
overs_after limit n (now ∷ times) = ltb limit (n + 1) ∷ overs_after limit (n + 1) times

young_lem :
    (t : Throttler) (now : ℕ) (r : ThrottlerRecord)
    → now ≤ r.creation_time + t.max_tracking
    → is_too_old t now r ≡ false
unfolding is_too_old
young_lem t now r h = ground arith

count_packets_lem :
    (t : Throttler) (now : ℕ) (r : ThrottlerRecord)
    → now < r.expiration
    → r.packets + 1 ≤ usize_max
    → count_packets t now 1 r ≡ record r { packets = r.packets + 1 }
unfolding count_packets saturating_add
count_packets_lem t now r h k = ground arith

judge-packets :
    (t : Throttler) (now : ℕ) (r : ThrottlerRecord) → (judge t now r).1.packets ≡ r.packets
unfolding judge
judge-packets t now r = ground arith

-- A burst of packets from one address is counted one by one: a packet is refused exactly if, with
-- the ones before it, there are more than the limit. The address has a record; every packet comes
-- before the record expires (a refusal moves that on) and within the tracking time after it was
-- made; and the count does not reach the largest number.
pub check_all-overs_after :
    (t : Throttler) (ip : IpAddr) (times : List ℕ) (r : ThrottlerRecord)
    → record_for ip t.records ≡ some r
    → IsBurst t r times
    → r.packets + length times ≤ usize_max
    → check_all t ip times ≡ some (overs_after t.rate_limit r.packets times)
unfolding judge
check_all-overs_after t ip [] r h burst few = refl
check_all-overs_after t ip (now ∷ times) r h burst few =
    let young = young_lem t now r burst.2 in
    let step = check_throttle_known t ip ip (some now) none now now r h young in
    let counted : count_packets t now 1 r ≡ record r { packets = r.packets + 1 } =
      count_packets_lem t now r burst.0 (omega arith) in
    let r' = (judge t now (record r { packets = r.packets + 1 })).1 in
    let t' : Throttler = record t { records = step.0 } in
    let packets : r'.packets ≡ r.packets + 1 =
      judge-packets t now (record r { packets = r.packets + 1 }) in
    let there : record_for ip step.0 ≡ some r' =
      step.2 ∙ ap (λ z. some (judge t now z).1) counted in
    let rest : check_all t' ip times ≡ some (overs_after t.rate_limit r'.packets times) =
      check_all-overs_after t' ip times r' there burst.3 (omega (arith, packets)) in
    rw (step.1, counted, rest, packets) refl

judge-expiration :
    (t : Throttler) (now : ℕ) (r : ThrottlerRecord)
    → ltb t.rate_limit r.packets ≡ true
    → (judge t now r).1.expiration ≡ now + t.naughty_timeout
unfolding judge
judge-expiration t now r e = ground (arith, e)

expired_packets :
    (t : Throttler) (now : ℕ) (r : ThrottlerRecord)
    → r.expiration ≤ now
    → (count_packets t now 1 r).packets ≡ 1
unfolding count_packets
expired_packets t now r h = ground arith

-- A packet after the expiration of the address's record.
expired_passes :
    (t : Throttler) (ip : IpAddr) (now : ℕ) (r : ThrottlerRecord)
    → record_for ip t.records ≡ some r
    → r.expiration ≤ now
    → 1 ≤ t.rate_limit
    → (t' : Throttler) × (check_throttle t ip (some now) none now now ≡ some (false, t'))
expired_passes t ip now r h expired one = elim (Bool-cases (is_too_old t now r)) [
  | inl old ↦
      let step = check_throttle_old t ip (some now) none now now r h old in
      (record t { records = step.0 }, step.1)
  | inr young ↦
      let step = check_throttle_known t ip ip (some now) none now now r h young in
      let passes : ltb t.rate_limit (count_packets t now 1 r).packets ≡ false =
        ground (arith, expired_packets t now r expired) in
      (
        record t { records = step.0 },
        step.1 ∙ ap (λ z. some (z, record t { records = step.0 })) passes,
      )
]

-- An address that was refused is served again: when it waits until the timeout is over, and the
-- limit allows a packet, its next packet is not refused.
pub check_throttle_again :
    (t : Throttler) (ip : IpAddr) (now later : ℕ) (r : ThrottlerRecord)
    → record_for ip t.records ≡ some r
    → now ≤ r.creation_time + t.max_tracking
    → ltb t.rate_limit (count_packets t now 1 r).packets ≡ true
    → 1 ≤ t.rate_limit
    → now + t.naughty_timeout ≤ later
    → check_all t ip (now ∷ later ∷ []) ≡ some (true ∷ false ∷ [])
check_throttle_again t ip now later r h young over one wait =
    let step = check_throttle_known t ip ip (some now) none now now r h (young_lem t now r young) in
    let counted = count_packets t now 1 r in
    let t' : Throttler = record t { records = step.0 } in
    let until : (judge t now counted).1.expiration ≡ now + t.naughty_timeout =
      judge-expiration t now counted over in
    let next =
      expired_passes t' ip later (judge t now counted).1 step.2 (omega (arith, until)) one in
    rw (step.1, over, next.1) refl
