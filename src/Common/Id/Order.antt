-- ===== src/Common/Id/Order.antt =====
-- src/common/id.rs: `partial_cmp`, and the numbers that the bytes of ids spell.
use rustydht_lib.Prelude.{
  ℕ, ◌+◌, ◌*◌, ◌^◌, ◌<◌, ◌≡◌, refl, ap, compare, Ordering, some, List, [], ◌∷◌, arith, length, All,
}
use native.Mathlib.Nat.{pow-suc}
use rustydht_lib.Common.Id.{NodeId, IsId, IsByte, cmp_bytes, partial_cmp}

-- The number that some bytes spell, the highest byte first.
unfoldable pub value : List ℕ → ℕ
value [] = 0
value (x ∷ xs) = x * 256 ^ length xs + value xs

pub value-lt : (xs : List ℕ) → All IsByte xs → value xs < 256 ^ length xs
unfolding value
value-lt [] h = omega arith
value-lt (x ∷ xs) h = grind (arith, value-lt xs h.1, pow-suc 256 (length xs))

-- The first digit decides between numbers of two digits in base P.
compare-digits-lt : (P x y v w : ℕ) → v < P → x < y → x * P + v < y * P + w
compare-digits-lt P x y v w h k = grind arith

compare-digits :
    (P x y v w : ℕ) (o : Ordering)
    → o ≡ compare v w
    → v < P
    → w < P
    → (elim (compare x y) [
      | Ordering.lt ↦ Ordering.lt
      | Ordering.gt ↦ Ordering.gt
      | Ordering.eq ↦ o
    ])
      ≡ compare (x * P + v) (y * P + w)
compare-digits P x y v w o e h k = ground (
  arith,
  compare-digits-lt P x y v w h,
  compare-digits-lt P y x w v k,
  λ (e : x ≡ y). ap (λ (t : ℕ). t * P) e,
)

cmp_bytes-value :
    (xs ys : List ℕ)
    → length xs ≡ length ys
    → All IsByte xs
    → All IsByte ys
    → cmp_bytes xs ys ≡ compare (value xs) (value ys)
unfolding cmp_bytes value
cmp_bytes-value [] [] e h k = refl
cmp_bytes-value [] (y ∷ ys) e h k = absurd (omega arith)
cmp_bytes-value (x ∷ xs) [] e h k = absurd (omega arith)
cmp_bytes-value (x ∷ xs) (y ∷ ys) e h k = rw (← same) (
    compare-digits (256 ^ length xs) x y (value xs) (value ys) (cmp_bytes xs ys)
      (cmp_bytes-value xs ys (omega arith) h.1 k.1) (value-lt xs h.1) (rw same (value-lt ys k.1)))
  where
    same : length xs ≡ length ys
    same = omega arith

-- Comparing two ids of 20 bytes compares the 160-bit numbers that their bytes spell, the first byte
-- highest.
pub partial_cmp-value :
    (a b : NodeId)
    → IsId a
    → IsId b
    → partial_cmp a b ≡ some (compare (value a.bytes) (value b.bytes))
unfolding partial_cmp
partial_cmp-value a b h k =
    ap some (cmp_bytes-value a.bytes b.bytes (omega arith) h.is_bytes k.is_bytes)
