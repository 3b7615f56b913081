-- ===== src/Common/Id/Distance.antt =====
-- src/common/id.rs: the exclusive or as a distance, and the number of shared leading bits.
use Prim.Native.Nat.{bit_xor}
use rustydht_lib.Prelude.{
  ℕ, zero, suc, ◌*◌, ◌≤◌, ◌≡◌, refl, ap, ◌↔◌, true, List, [], ◌∷◌, ◌++◌, arith, ==_iff, length,
  length-append, replicate, All,
}
use rustydht_lib.Prelude.Bits.{
  bits, common_prefix, length-bits, common_prefix-le, common_prefix-append, leading_zeros,
  leading_zeros-le, eq_zero_of_leading_zeros, leading_zeros-bit_xor, bit_xor_lt, bit_xor_self,
  bit_xor_comm_width, eq_of_bit_xor_zero,
}
use rustydht_lib.Common.Id.{
  NodeId, IsId, IsByte, bytes_eq, id_eq, xor_bytes, xor, prefix_bits, matching_prefix_bits, zero_id,
}

-- The bits of an id, the highest bit of the first byte first.
unfoldable pub byte_bits : List ℕ → List ℕ
byte_bits [] = []
byte_bits (b ∷ bs) = bits 8 b ++ byte_bits bs

pub bytes_eq_iff : (xs ys : List ℕ) → (bytes_eq xs ys ≡ true) ↔ (xs ≡ ys)
unfolding bytes_eq
bytes_eq_iff [] [] = ground arith
bytes_eq_iff [] (y ∷ ys) = ground arith
bytes_eq_iff (x ∷ xs) [] = ground arith
bytes_eq_iff (x ∷ xs) (y ∷ ys) = ground (arith, ==_iff x y, bytes_eq_iff xs ys)

pub id_eq_iff : (a b : NodeId) → (id_eq a b ≡ true) ↔ (a ≡ b)
unfolding id_eq
id_eq_iff a b = ground (arith, bytes_eq_iff a.bytes b.bytes)

length-xor_bytes : (xs ys : List ℕ) → length xs ≡ length ys → length (xor_bytes xs ys) ≡ length xs
unfolding xor_bytes
length-xor_bytes [] ys h = refl
length-xor_bytes (x ∷ xs) [] h = absurd (omega arith)
length-xor_bytes (x ∷ xs) (y ∷ ys) h = ap suc (length-xor_bytes xs ys (omega arith))

xor_bytes-IsByte : (xs ys : List ℕ) → All IsByte xs → All IsByte ys → All IsByte (xor_bytes xs ys)
unfolding xor_bytes
xor_bytes-IsByte [] ys h k = tt
xor_bytes-IsByte (x ∷ xs) [] h k = tt
xor_bytes-IsByte (x ∷ xs) (y ∷ ys) h k = (bit_xor_lt 8 x y h.0 k.0, xor_bytes-IsByte xs ys h.1 k.1)

pub xor-IsId : {a b : NodeId} → IsId a → IsId b → IsId (xor a b)
unfolding xor
xor-IsId {a} {b} h k = record {
  size = omega (arith, length-xor_bytes a.bytes b.bytes (omega arith));
  is_bytes = xor_bytes-IsByte a.bytes b.bytes h.is_bytes k.is_bytes;
}

xor_bytes_comm :
    (xs ys : List ℕ)
    → length xs ≡ length ys
    → All IsByte xs
    → All IsByte ys
    → xor_bytes xs ys ≡ xor_bytes ys xs
unfolding xor_bytes
xor_bytes_comm [] [] e h k = refl
xor_bytes_comm [] (y ∷ ys) e h k = absurd (omega arith)
xor_bytes_comm (x ∷ xs) [] e h k = absurd (omega arith)
xor_bytes_comm (x ∷ xs) (y ∷ ys) e h k =
    cc (bit_xor_comm_width 8 x y h.0 k.0, xor_bytes_comm xs ys (omega arith) h.1 k.1)

xor_bytes_self : (xs : List ℕ) → All IsByte xs → xor_bytes xs xs ≡ replicate (length xs) 0
unfolding xor_bytes
xor_bytes_self [] h = refl
xor_bytes_self (x ∷ xs) h = cc (bit_xor_self 8 x h.0, xor_bytes_self xs h.1)

eq_of_xor_bytes :
    (n : ℕ) (xs ys : List ℕ)
    → length xs ≡ n
    → length ys ≡ n
    → All IsByte xs
    → All IsByte ys
    → xor_bytes xs ys ≡ replicate n 0
    → xs ≡ ys
unfolding xor_bytes
eq_of_xor_bytes zero [] [] p q h k e = refl
eq_of_xor_bytes zero [] (y ∷ ys) p q h k e = absurd (omega arith)
eq_of_xor_bytes zero (x ∷ xs) ys p q h k e = absurd (omega arith)
eq_of_xor_bytes (suc n) [] ys p q h k e = absurd (omega arith)
eq_of_xor_bytes (suc n) (x ∷ xs) [] p q h k e = absurd (omega arith)
eq_of_xor_bytes (suc n) (x ∷ xs) (y ∷ ys) p q h k e = cc (
  eq_of_bit_xor_zero 8 x y h.0 k.0 (cc),
  eq_of_xor_bytes n xs ys (omega arith) (omega arith) h.1 k.1 (cc),
)

self-zero : (a : NodeId) → IsId a → xor a a ≡ zero_id
unfolding xor
self-zero a h =
    let e : xor_bytes a.bytes a.bytes ≡ replicate 20 0 =
      rw (xor_bytes_self a.bytes h.is_bytes, h.size) refl in
    ap (λ (bs : List ℕ). record { bytes = bs }) e

-- The exclusive or is a distance on ids of 20 bytes: it is an id, it does not depend on the order
-- of the two, and it is the zero id exactly between an id and itself.
xor_distance :
    (a b : NodeId)
    → IsId a
    → IsId b
    → IsId (xor a b) × (xor a b ≡ xor b a) × ((xor a b ≡ zero_id) ↔ (a ≡ b))
unfolding xor
xor_distance a b h k = (
  xor-IsId h k,
  ap (λ (bs : List ℕ). record { bytes = bs })
      (xor_bytes_comm a.bytes b.bytes (omega arith) h.is_bytes k.is_bytes),
  (
    λ e.
        ap (λ (bs : List ℕ). record { bytes = bs })
          (eq_of_xor_bytes 20 a.bytes b.bytes h.size k.size h.is_bytes k.is_bytes
            (ap (λ (i : NodeId). i.bytes) e)),
    λ e. rw (← e) (self-zero a h),
  ),
)

prefix_bits-common_prefix :
    (xs ys : List ℕ)
    → length xs ≡ length ys
    → All IsByte xs
    → All IsByte ys
    → prefix_bits (xor_bytes xs ys) ≡ common_prefix (byte_bits xs) (byte_bits ys)
unfolding prefix_bits xor_bytes byte_bits
prefix_bits-common_prefix [] [] e h k = unfold common_prefix in refl
prefix_bits-common_prefix [] (y ∷ ys) e h k = absurd (omega arith)
prefix_bits-common_prefix (x ∷ xs) [] e h k = absurd (omega arith)
prefix_bits-common_prefix (x ∷ xs) (y ∷ ys) e h k =
    rw (common_prefix-append (bits 8 x) (bits 8 y) (byte_bits xs) (byte_bits ys) same) (
      ground (
        arith,
        leading_zeros-bit_xor 8 x y h.0 k.0,
        leading_zeros-le 8 (bit_xor x y),
        length-bits 8 x,
        prefix_bits-common_prefix xs ys (omega arith) h.1 k.1,
      ))
  where
    same : length (bits 8 x) ≡ length (bits 8 y)
    same = omega (arith, length-bits 8 x, length-bits 8 y)

length-byte_bits : (xs : List ℕ) → length (byte_bits xs) ≡ 8 * length xs
unfolding byte_bits
length-byte_bits [] = refl
length-byte_bits (x ∷ xs) =
    omega (arith, length-append {0} (bits 8 x) (byte_bits xs), length-bits 8 x, length-byte_bits xs)

-- For ids of 20 bytes, `matching_prefix_bits` is the length of the longest common prefix of the two
-- ids, written out bit by bit with the highest bit of each byte first.
pub matching_prefix_bits-common_prefix :
    (a b : NodeId)
    → IsId a
    → IsId b
    → matching_prefix_bits a b ≡ common_prefix (byte_bits a.bytes) (byte_bits b.bytes)
unfolding matching_prefix_bits xor
matching_prefix_bits-common_prefix a b h k =
    prefix_bits-common_prefix a.bytes b.bytes (omega arith) h.is_bytes k.is_bytes

pub matching_prefix_bits-le : (a b : NodeId) → IsId a → IsId b → matching_prefix_bits a b ≤ 160
matching_prefix_bits-le a b h k = omega (
  arith,
  matching_prefix_bits-common_prefix a b h k,
  common_prefix-le (byte_bits a.bytes) (byte_bits b.bytes),
  length-byte_bits a.bytes,
  h.size,
)

prefix_bits-le : (xs : List ℕ) → prefix_bits xs ≤ 8 * length xs
unfolding prefix_bits
prefix_bits-le [] = omega arith
prefix_bits-le (x ∷ xs) = ground (arith, leading_zeros-le 8 x, prefix_bits-le xs)

prefix_bits-replicate : (n : ℕ) → prefix_bits (replicate n 0) ≡ 8 * n
unfolding prefix_bits leading_zeros
prefix_bits-replicate zero = refl
prefix_bits-replicate (suc n) = omega (arith, prefix_bits-replicate n)

-- All bytes of a distance with the full number of leading zeros are 0.
zero_of_prefix_bits :
    (xs : List ℕ) → All IsByte xs → 8 * length xs ≤ prefix_bits xs → xs ≡ replicate (length xs) 0
unfolding prefix_bits
zero_of_prefix_bits [] h e = refl
zero_of_prefix_bits (x ∷ xs) h e = cc (head, zero_of_prefix_bits xs h.1 tail)
  where
    head : x ≡ 0
    head = ground (arith, leading_zeros-le 8 x, eq_zero_of_leading_zeros 8 x h.0, prefix_bits-le xs)

    tail : 8 * length xs ≤ prefix_bits xs
    tail = ground (arith, leading_zeros-le 8 x, prefix_bits-le xs)

-- For ids of 20 bytes, all 160 bits are shared exactly by an id and itself; two ids that differ
-- share fewer.
pub matching_prefix_bits_full :
    (a b : NodeId) → IsId a → IsId b → (matching_prefix_bits a b ≡ 160) ↔ (a ≡ b)
unfolding matching_prefix_bits
matching_prefix_bits_full a b h k =
    (λ e. (xor_distance a b h k).2.0 (to_zero e), λ e. rw (← e) (from_zero (self-zero a h)))
  where
    d : IsId (xor a b)
    d = xor-IsId h k

    to_zero : matching_prefix_bits a b ≡ 160 → xor a b ≡ zero_id
    to_zero e =
        ap (λ (bs : List ℕ). record { bytes = bs })
          (rw (ap (λ (n : ℕ). replicate {A = ℕ} n 0) d.size) at
            (zero_of_prefix_bits (xor a b).bytes d.is_bytes (omega (arith, d.size))))

    from_zero : xor a a ≡ zero_id → matching_prefix_bits a a ≡ 160
    from_zero e = rw (ap (λ (i : NodeId). prefix_bits i.bytes) e) (prefix_bits-replicate 20)
