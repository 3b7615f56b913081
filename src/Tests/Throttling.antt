-- ===== src/Tests/Throttling.antt =====
-- src/storage/throttler.rs: the theorems on the throttler at a table of two addresses.
use rustydht_lib.Prelude.{
  ℕ, set, get_elem?, ◌≡◌, refl, true, false, none, some, List, [], ◌∷◌, arith, ltb, length, All,
}
use rustydht_lib.Common.Id.{bytes_eq}
use rustydht_lib.Common.Net.{IpAddr, v4, ip_eq}
use rustydht_lib.Storage.Throttler.{
  ThrottlerRecord, Throttler, unwrap_or, count_packets, judge, saturating_add, check_throttle,
}
use rustydht_lib.Storage.Throttler.Table.{record_for, IsLamest}
use rustydht_lib.Storage.Throttler.Checks.{IsKept, first_record, check_throttle_unknown}
use rustydht_lib.Storage.Throttler.Bursts.{
  check_all, IsBurst, overs_after, check_all-overs_after, check_throttle_again,
}
use rustydht_lib.Tests.Data.{local_ip}

abbrev pub known_ip : IpAddr
known_ip = v4 local_ip

abbrev new_ip : IpAddr
new_ip = v4 (record { a = 10; b = 0; c = 0; d = 9 })

abbrev pub counted : ThrottlerRecord
counted = record { ip = known_ip; packets = 2; expiration = 20; creation_time = 10 }

abbrev pub idle : ThrottlerRecord
idle = record {
  ip = v4 (record { a = 10; b = 0; c = 0; d = 8 });
  packets = 0;
  expiration = 5;
  creation_time = 5;
}

abbrev pub table : Throttler
table = record {
  records = counted ∷ idle ∷ [];
  rate_limit = 3;
  period = 6;
  naughty_timeout = 60;
  max_tracking = 1000;
}

known_there : record_for known_ip table.records ≡ some counted
unfolding ip_eq bytes_eq
known_there = refl

new_absent : record_for new_ip table.records ≡ none
unfolding ip_eq bytes_eq
new_absent = refl

check_unknown_example :
    (k : ℕ) × (lamest : ThrottlerRecord) × (rs : List ThrottlerRecord) × (get_elem? table.records k
      ≡ some lamest)
    × All (IsLamest lamest) table.records
    × (rs
        ≡ set table.records k
            (first_record table new_ip (unwrap_or none 15) (unwrap_or (some 2) 1)))
    × (check_throttle table new_ip none (some 2) 15 15
        ≡ some (ltb table.rate_limit (unwrap_or (some 2) 1), record table { records = rs }))
    × (record_for new_ip rs
        ≡ some (first_record table new_ip (unwrap_or none 15) (unwrap_or (some 2) 1)))
    × (length rs ≡ length table.records)
    × IsKept table (record table { records = rs }) new_ip lamest known_ip
check_unknown_example =
    check_throttle_unknown table new_ip known_ip none (some 2) 15 15 new_absent (omega arith)

times_ready : IsBurst table counted (15 ∷ 16 ∷ 40 ∷ [])
unfolding judge
times_ready = (
  omega arith,
  omega arith,
  omega arith,
  (omega arith, omega arith, omega arith, (omega arith, omega arith, omega arith, tt)),
)

check_all_example :
    check_all table known_ip (15 ∷ 16 ∷ 40 ∷ [])
    ≡ some (overs_after table.rate_limit counted.packets (15 ∷ 16 ∷ 40 ∷ []))
check_all_example =
    check_all-overs_after table known_ip (15 ∷ 16 ∷ 40 ∷ []) counted known_there times_ready
      (omega arith)

abbrev strict : Throttler
strict = record table { rate_limit = 2 }

over_now : ltb strict.rate_limit (count_packets strict 15 1 counted).packets ≡ true
unfolding count_packets saturating_add
over_now = refl

check_again_example : check_all strict known_ip (15 ∷ 75 ∷ []) ≡ some (true ∷ false ∷ [])
check_again_example =
    check_throttle_again strict known_ip 15 75 counted known_there (omega arith) over_now
      (omega arith) (omega arith)
