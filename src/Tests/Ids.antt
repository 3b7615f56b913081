-- ===== src/Tests/Ids.antt =====
-- src/common/id.rs: the theorems on ids at concrete ids.
use rustydht_lib.Prelude.{
  ℕ, ◌*◌, ◌≤◌, ◌<◌, ◌≡◌, refl, ◌⊎◌, false, true, none, some, List, arith, replicate,
}
use rustydht_lib.Prelude.Bits.{common_prefix}
use rustydht_lib.Common.Error.{ok, err, general_error}
use rustydht_lib.Common.Id.{NodeId, IsId, bytes_eq, matching_prefix_bits}
use rustydht_lib.Common.Id.Distance.{byte_bits, matching_prefix_bits-common_prefix}
use rustydht_lib.Common.Id.Order.{value}
use rustydht_lib.Common.Magic.{Draws, from_ip, is_loopback, is_valid_for_ip, make_mutant}
use rustydht_lib.Common.Magic.Valid.{is_valid_for_ip-from_ip, ipv6_panics, make_mutant-shares}
use rustydht_lib.Common.Net.{v4, v6}
use rustydht_lib.Tests.Data.{id_of, id_from, id_of-IsId, id_from-IsId, All-zeros, local_ip}

common_prefix_example :
    matching_prefix_bits (id_of 5) (id_of 4)
    ≡ common_prefix (byte_bits (id_of 5).bytes) (byte_bits (id_of 4).bytes)
common_prefix_example =
    matching_prefix_bits-common_prefix (id_of 5) (id_of 4) (id_of-IsId 5 (omega arith))
      (id_of-IsId 4 (omega arith))

-- The bytes as a number, in the place of a checksum.
abbrev as_number : List ℕ → ℕ
as_number bytes = value bytes

abbrev draws : Draws
draws = record { seed = 3; low = 6; middle = replicate 16 0 }

from_ip_example :
    (id : NodeId) × (from_ip as_number draws (v4 local_ip) ≡ some id)
    × IsId id
    × (is_valid_for_ip as_number id (v4 local_ip) ≡ some true)
from_ip_example =
    is_valid_for_ip-from_ip as_number draws local_ip (omega arith) (omega arith) refl (All-zeros 16)

not_loopback : is_loopback (v6 (replicate 16 0)) ≡ false
unfolding is_loopback bytes_eq
not_loopback = refl

ipv6_panics_example :
    (from_ip as_number draws (v6 (replicate 16 0)) ≡ none)
    × (is_valid_for_ip as_number (id_of 1) (v6 (replicate 16 0)) ≡ none)
ipv6_panics_example = ipv6_panics as_number draws (id_of 1) (replicate 16 0) not_loopback

abbrev two : ℕ
two = 2

make_mutant_example :
    ((two ≡ 0) ⊎ (20 ≤ two)) × (make_mutant (id_of 1) two (id_from 7) ≡ err general_error)
    ⊎ ((m : NodeId) × (1 ≤ two)
        × (two < 20)
        × (make_mutant (id_of 1) two (id_from 7) ≡ ok m)
        × IsId m
        × (8 * two ≤ matching_prefix_bits (id_of 1) m))
make_mutant_example =
    make_mutant-shares (id_of 1) (id_from 7) 2 (id_of-IsId 1 (omega arith))
      (id_from-IsId 7 (omega arith))
