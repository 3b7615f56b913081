-- ===== src/Storage/Throttler.antt =====
-- src/storage/throttler.rs: the table of the addresses that send packets. An instant is a number
-- of ticks, and `clock` and `clear_clock` are what `Instant::now` gives in `check_throttle` and in
-- `clear`. `none` is a panic.
pub mod Table
pub mod Checks
pub mod Bursts
use rustydht_lib.Prelude.{
  ℕ, suc, ◌+◌, ◌-◌, ◌^◌, Bool, true, false, ◌&&◌, ◌||◌, Option, none, some, List, [], ◌∷◌, ltb,
  ◌==◌, if◌then◌else◌, set, length, replicate,
}
use rustydht_lib.Common.Net.{Ipv4Addr, IpAddr, v4, ip_eq}

pub record ThrottlerRecord : Type 0 where
  pub ip : IpAddr
  pub packets : ℕ
  pub expiration : ℕ
  pub creation_time : ℕ

abbrev pub loopback : IpAddr
loopback = v4 (record { a = 127; b = 0; c = 0; d = 1 })

unfoldable pub default_record : ℕ → ThrottlerRecord
default_record now = record { ip = loopback; packets = 0; expiration = now; creation_time = now }

unfoldable pub clear : ThrottlerRecord → ℕ → ThrottlerRecord
clear r now = record r { ip = loopback; packets = 0; expiration = now; creation_time = now }

pub record Throttler : Type 0 where
  pub records : List ThrottlerRecord
  pub rate_limit : ℕ
  pub period : ℕ
  pub naughty_timeout : ℕ
  pub max_tracking : ℕ

unfoldable pub new : ℕ → ℕ → ℕ → ℕ → ℕ → ℕ → Throttler
unfolding default_record
new num_records now rate_limit period naughty_timeout max_tracking = record {
  records = replicate num_records (default_record now);
  rate_limit = rate_limit;
  period = period;
  naughty_timeout = naughty_timeout;
  max_tracking = max_tracking;
}

-- Fewer packets, or as many and an earlier expiration.
unfoldable pub is_lamer : ThrottlerRecord → ThrottlerRecord → Bool
is_lamer r lame =
    ltb r.packets lame.packets || ((r.packets == lame.packets) && ltb r.expiration lame.expiration)

-- A reference into the table is the index and the record there.
unfoldable pub lamer : ℕ → ThrottlerRecord → Option (ℕ × ThrottlerRecord) → ℕ × ThrottlerRecord
lamer i r none = (i, r)
lamer i r (some lamest) = if is_lamer r lamest.1 then (i, r) else lamest

pub data Scan : Type 0 where
  found : ℕ → ThrottlerRecord → Scan
  missing : Option (ℕ × ThrottlerRecord) → Scan

-- The loop over the records, from index i on.
unfoldable pub scan : IpAddr → List ThrottlerRecord → ℕ → Option (ℕ × ThrottlerRecord) → Scan
scan ip [] i lamest = missing lamest
scan ip (r ∷ rs) i lamest =
    if ip_eq r.ip ip then found i r else scan ip rs (suc i) (some (lamer i r lamest))

abbrev pub usize_max : ℕ
usize_max = 18446744073709551615

-- `checked_add(..).unwrap_or(PacketCount::MAX)`
unfoldable pub saturating_add : ℕ → ℕ → ℕ
saturating_add a b = if ltb usize_max (a + b) then usize_max else a + b

-- The test of the rate limit, and the timeout for a record over it.
unfoldable pub judge : Throttler → ℕ → ThrottlerRecord → Bool × ThrottlerRecord
judge t now r =
    if ltb t.rate_limit r.packets
    then (true, record r { expiration = now + t.naughty_timeout })
    else (false, r)

-- One more check of a record before it expires, or the first one after.
unfoldable pub count_packets : Throttler → ℕ → ℕ → ThrottlerRecord → ThrottlerRecord
count_packets t now count r =
    if ltb now r.expiration
    then record r { packets = saturating_add r.packets count }
    else record r { packets = count; expiration = now + t.period }

-- `checked_duration_since` gives nothing for a record from the future.
unfoldable pub is_too_old : Throttler → ℕ → ThrottlerRecord → Bool
is_too_old t now r =
    if ltb now r.creation_time then false else ltb t.max_tracking (now - r.creation_time)

unfoldable pub update_found : Throttler → ℕ → ℕ → ℕ → ThrottlerRecord → Bool × ThrottlerRecord
update_found t now count clear_clock r =
    if is_too_old t now r
    then (false, clear r clear_clock)
    else judge t now (count_packets t now count r)

unfoldable pub update_lamest : Throttler → IpAddr → ℕ → ℕ → ThrottlerRecord → Bool × ThrottlerRecord
update_lamest t ip now count r =
    judge t now
      (record r { packets = count; expiration = now + t.period; ip = ip; creation_time = now })

abbrev pub unwrap_or {ℓ} : {A : Type ℓ} → Option A → A → A
unwrap_or none d = d
unwrap_or (some a) d = a

-- What the reference writes.
abbrev pub write_record : Throttler → ℕ → Bool × ThrottlerRecord → Option (Bool × Throttler)
write_record t i res = some (res.0, record t { records = set t.records i res.1 })

unfoldable pub answer : Throttler → IpAddr → ℕ → ℕ → ℕ → Scan → Option (Bool × Throttler)
answer t ip now count clear_clock (found i r) =
    write_record t i (update_found t now count clear_clock r)
answer t ip now count clear_clock (missing (some lamest)) =
    write_record t (lamest.0) (update_lamest t ip now count lamest.1)
answer t ip now count clear_clock (missing none) = none

unfoldable pub check_throttle :
    Throttler → IpAddr → Option ℕ → Option ℕ → ℕ → ℕ → Option (Bool × Throttler)
check_throttle t ip now count clock clear_clock =
    answer t ip (unwrap_or now clock) (unwrap_or count 1) clear_clock (scan ip t.records 0 none)

unfoldable pub get_num_records : Throttler → ℕ
get_num_records t = length t.records
