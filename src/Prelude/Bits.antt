-- ===== src/Prelude/Bits.antt =====
-- Exclusive or on binary digits at every width, and the bits of a number, highest first.
use Prim.Native.Nat.{digits, differ, bit_xor, bit_xor-bitwise}
use native.Mathlib.Nat.{pow-suc}
use rustydht_lib.Prelude.Tests.{◌==◌, if◌then◌else◌}
use rustydht_lib.Prelude.Lists.{length, length-append}
use Prim.Native.Nat.{ℕ, zero, suc, ◌+◌, ◌*◌, ◌/◌, ◌%◌, ◌^◌, ◌≤◌, ◌<◌}
use mathlib.Core.Path.{◌≡◌, refl, sym}
use mathlib.Core.List.{List, [], ◌∷◌, ◌++◌}
use native.Mathlib.Omega.{arith}

-- One digit: 0 if the two are the same, else 1.
abbrev xor_digit : ℕ → ℕ → ℕ
xor_digit a b = (a + b) % 2

differ-xor_digit : (a b : ℕ) → a < 2 → b < 2 → differ a b ≡ xor_digit a b
differ-xor_digit zero b h k = omega arith
differ-xor_digit (suc zero) zero h k = refl
differ-xor_digit (suc zero) (suc zero) h k = refl
differ-xor_digit (suc zero) (suc (suc b)) h k = absurd (omega arith)
differ-xor_digit (suc (suc a)) b h k = absurd (omega arith)

abbrev xor_digits : ℕ → ℕ → ℕ → ℕ
xor_digits = digits (λ y. y) differ

pub bit_xor_zero : (b : ℕ) → bit_xor 0 b ≡ b
bit_xor_zero b = bit_xor-bitwise 0 b

digits_step :
    (n a b : ℕ)
    → xor_digits (suc n) (suc a) b
      ≡ xor_digits n (suc a / 2) (b / 2) * 2 + xor_digit (suc a % 2) (b % 2)
digits_step n a b = omega (arith, differ-xor_digit (suc a % 2) (b % 2) (omega arith) (omega arith))

-- Any fuel from the first number on gives the exclusive or.
enough_fuel : (bound n a b : ℕ) → n ≤ bound → a ≤ n → xor_digits n a b ≡ bit_xor a b
enough_fuel bound zero zero b small h = sym (bit_xor_zero b)
enough_fuel bound (suc n) zero b small h = sym (bit_xor_zero b)
enough_fuel bound zero (suc a) b small h = absurd (omega arith)
enough_fuel zero (suc n) (suc a) b small h = absurd (omega arith)
enough_fuel (suc bound) (suc n) (suc a) b small h = omega (
  arith,
  digits_step n a b,
  digits_step a a b,
  bit_xor-bitwise (suc a) b,
  enough_fuel bound n (suc a / 2) (b / 2) (omega arith) (omega arith),
  enough_fuel bound a (suc a / 2) (b / 2) (omega arith) (omega arith),
)

-- One equation for the lowest digit.
pub bit_xor_step : (a b : ℕ) → bit_xor a b ≡ bit_xor (a / 2) (b / 2) * 2 + xor_digit (a % 2) (b % 2)
bit_xor_step zero b = omega (arith, bit_xor_zero b, bit_xor_zero (b / 2))
bit_xor_step (suc a) b = omega (
  arith,
  bit_xor-bitwise (suc a) b,
  digits_step a a b,
  enough_fuel a a (suc a / 2) (b / 2) (omega arith) (omega arith),
)

xor_below_one : (a b : ℕ) → a < 1 → b < 1 → bit_xor a b ≡ 0
xor_below_one zero zero h k = refl
xor_below_one zero (suc b) h k = absurd (omega arith)
xor_below_one (suc a) b h k = absurd (omega arith)

-- By induction on the width: each holds for numbers of w digits.
pub bit_xor_self : (w a : ℕ) → a < 2 ^ w → bit_xor a a ≡ 0
bit_xor_self zero a h = omega (arith, xor_below_one a a h h)
bit_xor_self (suc w) a h =
    omega
      (arith, bit_xor_step a a, pow-suc 2 w, bit_xor_self w (a / 2) (omega (arith, pow-suc 2 w)))

pub bit_xor_comm_width : (w a b : ℕ) → a < 2 ^ w → b < 2 ^ w → bit_xor a b ≡ bit_xor b a
bit_xor_comm_width zero a b h k = omega (arith, xor_below_one a b h k, xor_below_one b a k h)
bit_xor_comm_width (suc w) a b h k = omega (
  arith,
  bit_xor_step a b,
  bit_xor_step b a,
  pow-suc 2 w,
  bit_xor_comm_width w (a / 2) (b / 2) (omega (arith, pow-suc 2 w)) (omega (arith, pow-suc 2 w)),
)

pub bit_xor_lt : (w a b : ℕ) → a < 2 ^ w → b < 2 ^ w → bit_xor a b < 2 ^ w
bit_xor_lt zero a b h k = omega (arith, xor_below_one a b h k)
bit_xor_lt (suc w) a b h k = omega (
  arith,
  bit_xor_step a b,
  pow-suc 2 w,
  bit_xor_lt w (a / 2) (b / 2) (omega (arith, pow-suc 2 w)) (omega (arith, pow-suc 2 w)),
)

pub eq_of_bit_xor_zero : (w a b : ℕ) → a < 2 ^ w → b < 2 ^ w → bit_xor a b ≡ 0 → a ≡ b
eq_of_bit_xor_zero zero a b h k e = omega arith
eq_of_bit_xor_zero (suc w) a b h k e = omega (
  arith,
  bit_xor_step a b,
  pow-suc 2 w,
  eq_of_bit_xor_zero w (a / 2) (b / 2) (omega (arith, pow-suc 2 w)) (omega (arith, pow-suc 2 w))
      (omega (arith, bit_xor_step a b)),
)

-- The bits of a number of w digits, highest first.
unfoldable pub bits : ℕ → ℕ → List ℕ
bits zero a = []
bits (suc w) a = bits w (a / 2) ++ a % 2 ∷ []

-- The zeros above the highest set bit of a number of w digits (`leading_zeros` of `u8`, at w = 8).
unfoldable pub leading_zeros : ℕ → ℕ → ℕ
leading_zeros zero a = 0
leading_zeros (suc w) a = if a == 0 then suc w else leading_zeros w (a / 2)

unfoldable pub common_prefix : List ℕ → List ℕ → ℕ
common_prefix [] ys = 0
common_prefix (x ∷ xs) [] = 0
common_prefix (x ∷ xs) (y ∷ ys) = if x == y then suc (common_prefix xs ys) else 0

pub length-bits : (w a : ℕ) → length (bits w a) ≡ w
unfolding bits
length-bits zero a = refl
length-bits (suc w) a =
    omega (arith, length-append {0} (bits w (a / 2)) (a % 2 ∷ []), length-bits w (a / 2))

pub common_prefix-le : (xs ys : List ℕ) → common_prefix xs ys ≤ length xs
unfolding common_prefix
common_prefix-le [] ys = omega arith
common_prefix-le (x ∷ xs) [] = omega arith
common_prefix-le (x ∷ xs) (y ∷ ys) = ground (arith, common_prefix-le xs ys)

-- A prefix that ends inside the first parts is the prefix of the first parts.
pub common_prefix-append :
    (xs ys us vs : List ℕ)
    → length xs ≡ length ys
    → common_prefix (xs ++ us) (ys ++ vs) ≡ (
        if common_prefix xs ys == length xs
        then length xs + common_prefix us vs
        else common_prefix xs ys)
unfolding common_prefix
common_prefix-append [] [] us vs h = omega arith
common_prefix-append [] (y ∷ ys) us vs h = absurd (omega arith)
common_prefix-append (x ∷ xs) [] us vs h = absurd (omega arith)
common_prefix-append (x ∷ xs) (y ∷ ys) us vs h =
    ground (arith, common_prefix-append xs ys us vs (omega arith))

pub leading_zeros-le : (w a : ℕ) → leading_zeros w a ≤ w
unfolding leading_zeros
leading_zeros-le zero a = omega arith
leading_zeros-le (suc w) a = ground (arith, leading_zeros-le w (a / 2))

leading_zeros_zero : (w : ℕ) → leading_zeros w 0 ≡ w
unfolding leading_zeros
leading_zeros_zero zero = refl
leading_zeros_zero (suc w) = refl

pub eq_zero_of_leading_zeros : (w a : ℕ) → a < 2 ^ w → leading_zeros w a ≡ w → a ≡ 0
unfolding leading_zeros
eq_zero_of_leading_zeros zero a h e = omega arith
eq_zero_of_leading_zeros (suc w) a h e = ground (arith, leading_zeros-le w (a / 2))

half-lt : (w a : ℕ) → a < 2 ^ suc w → a / 2 < 2 ^ w
half-lt w a h = omega (arith, pow-suc 2 w)

bit_xor_half : (a b : ℕ) → bit_xor a b / 2 ≡ bit_xor (a / 2) (b / 2)
bit_xor_half a b = omega (arith, bit_xor_step a b)

-- The leading zeros of the exclusive or count the leading bits that two numbers share.
pub leading_zeros-bit_xor :
    (w a b : ℕ)
    → a < 2 ^ w
    → b < 2 ^ w
    → leading_zeros w (bit_xor a b) ≡ common_prefix (bits w a) (bits w b)
unfolding leading_zeros bits common_prefix
leading_zeros-bit_xor zero a b h k = refl
leading_zeros-bit_xor (suc w) a b h k =
    let ha : a / 2 < 2 ^ w = half-lt w a h in
    let hb : b / 2 < 2 ^ w = half-lt w b k in
    let same : length (bits w (a / 2)) ≡ length (bits w (b / 2)) =
      omega (arith, length-bits w (a / 2), length-bits w (b / 2)) in
    let high = leading_zeros-bit_xor w (a / 2) (b / 2) ha hb in
    rw (bit_xor_half a b) (
      rw (common_prefix-append (bits w (a / 2)) (bits w (b / 2)) (a % 2 ∷ []) (b % 2 ∷ []) same) (
        ground (
          arith,
          high,
          bit_xor_step a b,
          length-bits w (a / 2),
          leading_zeros_zero w,
          eq_zero_of_leading_zeros w (bit_xor (a / 2) (b / 2)) (bit_xor_lt w (a / 2) (b / 2) ha hb),
        )))
