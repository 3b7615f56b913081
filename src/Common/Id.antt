-- ===== src/Common/Id.antt =====
-- src/common/id.rs: `Id` (here NodeId), its bytes, `xor`, `matching_prefix_bits` and `partial_cmp`.
-- `[u8; ID_SIZE]` is a list of numbers; `IsId` says that there are 20 of them, each below 256.
pub mod Distance
pub mod Order
use Prim.Native.Nat.{bit_xor}
use rustydht_lib.Prelude.{
  ℕ, ◌+◌, ◌<◌, ◌≡◌, compare, Ordering, Bool, true, false, ◌&&◌, Option, some, List, [], ◌∷◌, ltb,
  ◌==◌, if◌then◌else◌, length, replicate, All,
}
use rustydht_lib.Prelude.Bits.{leading_zeros}
use rustydht_lib.Common.Error.{Result, ok, err, packet_parse_error}

abbrev pub id_size : ℕ
id_size = 20

pub record NodeId : Type 0 where
  pub bytes : List ℕ

abbrev pub IsByte : ℕ → Type 0
IsByte b = b < 256

pub record IsId (id : NodeId) : Type 0 where
  pub size : length id.bytes ≡ id_size
  pub is_bytes : All IsByte id.bytes

unfoldable pub from_bytes : List ℕ → Result NodeId
from_bytes bytes =
    if length bytes == id_size then ok (record { bytes = bytes }) else err packet_parse_error

unfoldable pub to_vec : NodeId → List ℕ
to_vec id = id.bytes

-- `==` of two byte arrays, derived.
unfoldable pub bytes_eq : List ℕ → List ℕ → Bool
bytes_eq [] [] = true
bytes_eq [] (y ∷ ys) = false
bytes_eq (x ∷ xs) [] = false
bytes_eq (x ∷ xs) (y ∷ ys) = (x == y) && bytes_eq xs ys

unfoldable pub id_eq : NodeId → NodeId → Bool
unfolding bytes_eq
id_eq a b = bytes_eq a.bytes b.bytes

unfoldable pub xor_bytes : List ℕ → List ℕ → List ℕ
xor_bytes [] ys = []
xor_bytes (x ∷ xs) [] = []
xor_bytes (x ∷ xs) (y ∷ ys) = bit_xor x y ∷ xor_bytes xs ys

unfoldable pub xor : NodeId → NodeId → NodeId
xor a b = record { bytes = xor_bytes a.bytes b.bytes }

-- The loop over the bytes of the exclusive or; it stops behind the first byte that is not 0.
unfoldable pub prefix_bits : List ℕ → ℕ
prefix_bits [] = 0
prefix_bits (b ∷ bs) =
    let rest = prefix_bits bs in
    if ltb (leading_zeros 8 b) 8 then leading_zeros 8 b else leading_zeros 8 b + rest

unfoldable pub matching_prefix_bits : NodeId → NodeId → ℕ
matching_prefix_bits a b = prefix_bits (xor a b).bytes

-- The first bytes that differ decide.
unfoldable pub cmp_bytes : List ℕ → List ℕ → Ordering
cmp_bytes [] ys = Ordering.eq
cmp_bytes (x ∷ xs) [] = Ordering.eq
cmp_bytes (x ∷ xs) (y ∷ ys) = elim (compare x y) [
  | Ordering.lt ↦ Ordering.lt
  | Ordering.gt ↦ Ordering.gt
  | Ordering.eq ↦ cmp_bytes xs ys
]

unfoldable pub partial_cmp : NodeId → NodeId → Option Ordering
unfolding cmp_bytes
partial_cmp a b = some (cmp_bytes a.bytes b.bytes)

abbrev pub zero_id : NodeId
zero_id = record { bytes = replicate id_size 0 }
