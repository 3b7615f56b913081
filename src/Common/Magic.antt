-- ===== src/Common/Magic.antt =====
-- src/common/id.rs: ids that fit an IP address (BEP 42): `IdPrefixMagic`, `Id::from_ip`,
-- `is_valid_for_ip`, and `make_mutant`.
-- The checksum of the crc crate and the numbers that the generator draws are arguments. `none`
-- is a panic.
pub mod Valid
use Prim.Native.Nat.{bit_and, bit_or}
use rustydht_lib.Prelude.{
  ℕ, ◌+◌, ◌*◌, ◌/◌, ◌%◌, ◌^◌, Bool, true, false, ◌&&◌, ◌||◌, Option, none, some, List, [], ◌∷◌,
  ◌++◌, ◌==◌, leb, if◌then◌else◌, length, get_or, take, drop, replicate,
}
use rustydht_lib.Common.Error.{Result, ok, err, general_error}
use rustydht_lib.Common.Id.{NodeId, id_size, bytes_eq}
use rustydht_lib.Common.Id.Order.{value}
use rustydht_lib.Common.Net.{IpAddr, v4, v6, octets}

pub record IdPrefixMagic : Type 0 where
  pub p0 : ℕ
  pub p1 : ℕ
  pub p2 : ℕ
  pub suffix : ℕ

-- `u32::to_be_bytes` and `u64::to_be_bytes`: the n low bytes, the highest first.
unfoldable pub be_bytes4 : ℕ → List ℕ
be_bytes4 x = x / 2 ^ 24 % 256 ∷ x / 2 ^ 16 % 256 ∷ x / 2 ^ 8 % 256 ∷ x % 256 ∷ []

unfoldable pub be_bytes8 : ℕ → List ℕ
unfolding be_bytes4
be_bytes8 x = be_bytes4 (x / 2 ^ 32) ++ be_bytes4 (x % 2 ^ 32)

-- A slice that is read as `[u8; 3]`; `expect` panics at any other length.
unfoldable pub to_magic : List ℕ → ℕ → Option IdPrefixMagic
to_magic (x ∷ y ∷ z ∷ []) suffix = some (record { p0 = x; p1 = y; p2 = z; suffix = suffix })
to_magic _ suffix = none

unfoldable pub magic_from_ip : (List ℕ → ℕ) → IpAddr → ℕ → Option IdPrefixMagic
magic_from_ip checksum (v4 ip) seed_r =
    let ip_int = value (octets ip) in
    let nonsense = bit_or (bit_and ip_int 0x030f3fff) (seed_r * 2 ^ 29 % 2 ^ 32) in
    to_magic (take 3 (be_bytes4 (checksum (be_bytes4 nonsense)))) seed_r
magic_from_ip checksum (v6 os) seed_r =
    let ip_int = value (drop 8 os) in
    let nonsense = bit_or (bit_and ip_int 0x0103070f1f3f7fff) (seed_r * 2 ^ 61 % 2 ^ 64) in
    to_magic (take 2 (be_bytes4 (checksum (be_bytes8 nonsense)))) seed_r

unfoldable pub magic_from_id : NodeId → IdPrefixMagic
magic_from_id id = record {
  p0 = get_or id.bytes 0 0;
  p1 = get_or id.bytes 1 0;
  p2 = get_or id.bytes 2 0;
  suffix = get_or id.bytes 19 0;
}

-- `PartialEq`: 21 bits of the prefix, and the suffix.
unfoldable pub magic_eq : IdPrefixMagic → IdPrefixMagic → Bool
magic_eq a b =
    (a.p0 == b.p0)
    && ((a.p1 == b.p1) && ((bit_and a.p2 0xf8 == bit_and b.p2 0xf8) && (a.suffix == b.suffix)))

-- What `from_ip` draws: the seed, the byte whose low bits it takes, and bytes 3 to 18.
pub record Draws : Type 0 where
  pub seed : ℕ
  pub low : ℕ
  pub middle : List ℕ

unfoldable pub mix : IdPrefixMagic → Draws → NodeId
mix m rng = record {
  bytes =
      m.p0
      ∷ m.p1
      ∷ bit_or (bit_and m.p2 0xf8) (bit_and rng.low 0x7)
      ∷ (rng.middle ++ rng.seed ∷ []);
}

unfoldable pub from_ip : (List ℕ → ℕ) → Draws → IpAddr → Option NodeId
from_ip checksum rng ip = elim (magic_from_ip checksum ip rng.seed) [
  | none ↦ none
  | some m ↦ some (mix m rng)
]

unfoldable pub is_loopback : IpAddr → Bool
is_loopback (v4 ip) = ip.a == 127
is_loopback (v6 os) = bytes_eq os (replicate 15 0 ++ 1 ∷ [])

unfoldable pub is_valid_for_ip : (List ℕ → ℕ) → NodeId → IpAddr → Option Bool
is_valid_for_ip checksum id ip =
    if is_loopback ip then some true else elim (magic_from_ip checksum ip (get_or id.bytes 19 0)) [
      | none ↦ none
      | some expected ↦ some (magic_eq expected (magic_from_id id))
    ]

-- The first bytes of the id in front of the rest of a random one.
unfoldable pub make_mutant : NodeId → ℕ → NodeId → Result NodeId
make_mutant id identical_bytes random =
    if (identical_bytes == 0) || leb id_size identical_bytes
    then err general_error
    else ok (record { bytes = take identical_bytes id.bytes ++ drop identical_bytes random.bytes })
