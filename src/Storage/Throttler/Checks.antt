-- ===== src/Storage/Throttler/Checks.antt =====
-- src/storage/throttler.rs: what `check_throttle` answers and writes.
use rustydht_lib.Prelude.{
  ℕ, ◌+◌, ◌≤◌, ◌≡◌, refl, ap, ◌∙◌, ◌⊎◌, inl, inr, true, false, Option, none, some, List, arith, ltb,
  if◌then◌else◌, Bool-cases, set, length, length-set, get_elem?, All,
}
use rustydht_lib.Common.Net.{IpAddr, ip_eq}
use rustydht_lib.Common.Net.Equality.{ip_eq-same, ip_eq_refl, ip_eq_sym}
use rustydht_lib.Storage.Throttler.{
  ThrottlerRecord, Throttler, clear, found, missing, scan, judge, count_packets, is_too_old,
  update_found, update_lamest, unwrap_or, answer, check_throttle,
}
use rustydht_lib.Storage.Throttler.Table.{
  record_for, record_for-set, record_for-set_first, record_for-take, scan-found, IsLamest,
  scan-missing,
}

-- The records of the addresses other than `ip` and the one that `old` is for.
abbrev pub IsKept : Throttler → Throttler → IpAddr → ThrottlerRecord → IpAddr → Type 0
IsKept t t' ip old x =
    (ip_eq ip x ≡ true)
    ⊎ (ip_eq old.ip x ≡ true)
    ⊎ (record_for x t'.records ≡ record_for x t.records)

kept :
    (t : Throttler) (ip : IpAddr) (old r : ThrottlerRecord) (k : ℕ) (x : IpAddr)
    → get_elem? t.records k ≡ some old
    → ip_eq r.ip ip ≡ true
    → IsKept t (record t { records = set t.records k r }) ip old x
kept t ip old r k x h e = elim (Bool-cases (ip_eq ip x)) [
  | inl same ↦ inl same
  | inr other ↦ elim (Bool-cases (ip_eq old.ip x)) [
    | inl lost ↦ inr (inl lost)
    | inr there ↦ inr (
        inr (
          record_for-set x t.records k old r h there (
            ground (
              arith,
              ip_eq-same x r.ip ip,
              ip_eq_sym r.ip x,
              ip_eq_sym x ip,
              ip_eq_sym ip x,
              ip_eq-same r.ip ip x,
              other,
              e,
            ))))
  ]
]

judge-ip : (t : Throttler) (now : ℕ) (r : ThrottlerRecord) → (judge t now r).1.ip ≡ r.ip
unfolding judge
judge-ip t now r = ground arith

judge-over :
    (t : Throttler) (now : ℕ) (r : ThrottlerRecord) → (judge t now r).0 ≡ ltb t.rate_limit r.packets
unfolding judge
judge-over t now r = ground arith

count_packets-ip :
    (t : Throttler) (now count : ℕ) (r : ThrottlerRecord) → (count_packets t now count r).ip ≡ r.ip
unfolding count_packets
count_packets-ip t now count r = ground arith

-- For an address with a record that is not too old, `check_throttle` answers whether the packets
-- counted are over the limit. Its record is then the counted one, with a new expiration if they
-- are, and no other address has another record than before.
pub check_throttle_known :
    (t : Throttler) (ip x : IpAddr) (now count : Option ℕ) (clock clear_clock : ℕ)
    (r : ThrottlerRecord)
    → record_for ip t.records ≡ some r
    → is_too_old t (unwrap_or now clock) r ≡ false
    → (rs : List ThrottlerRecord) × (check_throttle t ip now count clock clear_clock
        ≡ some (
          ltb t.rate_limit (count_packets t (unwrap_or now clock) (unwrap_or count 1) r).packets,
          record t { records = rs },
        ))
      × (record_for ip rs
          ≡ some
              (judge t
                (unwrap_or now clock)
                (count_packets t (unwrap_or now clock) (unwrap_or count 1) r)).1)
      × (length rs ≡ length t.records)
      × ((ip_eq ip x ≡ true) ⊎ (record_for x rs ≡ record_for x t.records))
unfolding check_throttle answer update_found
check_throttle_known t ip x now count clock clear_clock r h young =
    let at : ℕ = unwrap_or now clock in
    let counted = count_packets t at (unwrap_or count 1) r in
    let new = (judge t at counted).1 in
    let s = scan-found ip t.records 0 none r h in
    let k : ℕ = s.0 in
    let same_ip : new.ip ≡ r.ip =
      judge-ip t at counted ∙ count_packets-ip t at (unwrap_or count 1) r in
    let own : ip_eq new.ip ip ≡ true = ap (λ z. ip_eq z ip) same_ip ∙ s.3 in
    let place : scan ip t.records 0 none ≡ found k r = s.1 ∙ ap (λ z. found z r) (omega arith) in
    (
      set t.records k new,
      rw (check_throttle, place, young, judge-over t at counted) refl,
      record_for-set_first ip t.records k r new s.2 s.4 own,
      length-set t.records k new,
      elim (kept t ip r new k x s.2 own) [
        | inl same ↦ inl same
        | inr (inl lost) ↦
            inl (ground (arith, ip_eq-same r.ip ip x, ip_eq_sym x ip, ip_eq_sym r.ip x, s.3, lost))
        | inr (inr there) ↦ inr there
      ],
    )

-- A record that is too old is cleared, and the packet that finds it is not refused.
pub check_throttle_old :
    (t : Throttler) (ip : IpAddr) (now count : Option ℕ) (clock clear_clock : ℕ)
    (r : ThrottlerRecord)
    → record_for ip t.records ≡ some r
    → is_too_old t (unwrap_or now clock) r ≡ true
    → (rs : List ThrottlerRecord) × (check_throttle t ip now count clock clear_clock
        ≡ some (false, record t { records = rs }))
unfolding check_throttle answer update_found
check_throttle_old t ip now count clock clear_clock r h old =
    let s = scan-found ip t.records 0 none r h in
    let k : ℕ = s.0 in
    let place : scan ip t.records 0 none ≡ found k r = s.1 ∙ ap (λ z. found z r) (omega arith) in
    (set t.records k (clear r clear_clock), rw (check_throttle, place, old) refl)

-- What a new record for the address is.
abbrev pub first_record : Throttler → IpAddr → ℕ → ℕ → ThrottlerRecord
first_record t ip now count = record {
  ip = ip;
  packets = count;
  expiration = now + (if ltb t.rate_limit count then t.naughty_timeout else t.period);
  creation_time = now;
}

-- For an address without a record, in a table of one record at least, `check_throttle` does not
-- panic: it answers whether the packets are over the limit. One record of the table, which no record
-- of the table is lamer than, is overwritten with the first record of the address; the rest of the
-- table is as before, so all addresses but these two keep theirs.
pub check_throttle_unknown :
    (t : Throttler) (ip x : IpAddr) (now count : Option ℕ) (clock clear_clock : ℕ)
    → record_for ip t.records ≡ none
    → 1 ≤ length t.records
    → (k : ℕ) × (lamest : ThrottlerRecord) × (rs : List ThrottlerRecord) × (get_elem? t.records k
        ≡ some lamest)
      × All (IsLamest lamest) t.records
      × (rs ≡ set t.records k (first_record t ip (unwrap_or now clock) (unwrap_or count 1)))
      × (check_throttle t ip now count clock clear_clock
          ≡ some (ltb t.rate_limit (unwrap_or count 1), record t { records = rs }))
      × (record_for ip rs ≡ some (first_record t ip (unwrap_or now clock) (unwrap_or count 1)))
      × (length rs ≡ length t.records)
      × IsKept t (record t { records = rs }) ip lamest x
unfolding check_throttle answer update_lamest judge
check_throttle_unknown t ip x now count clock clear_clock h n =
    let s = scan-missing ip t.records h n in
    let at : ℕ = unwrap_or now clock in
    let new = first_record t ip at (unwrap_or count 1) in
    let k : ℕ = s.0.0 in
    let place : scan ip t.records 0 none ≡ missing (some s.0) = s.1 in
    (
      k,
      s.0.1,
      set t.records k new,
      s.3,
      s.2,
      refl,
      elim (Bool-cases (ltb t.rate_limit (unwrap_or count 1))) [
        | inl e ↦ rw (check_throttle, place, e) refl
        | inr e ↦ rw (check_throttle, place, e) refl
      ],
      record_for-set_first ip t.records k s.0.1 new s.3 (record_for-take ip t.records k h)
          (ip_eq_refl ip),
      length-set t.records k new,
      kept t ip s.0.1 new k x s.3 (ip_eq_refl ip),
    )
