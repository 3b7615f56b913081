-- ===== src/Common/Magic/Valid.antt =====
-- src/common/id.rs: what `from_ip`, `is_valid_for_ip` and `make_mutant` guarantee.
use Prim.Native.Nat.{bit_and, bit_or, bit_xor}
use rustydht_lib.Prelude.{
  ℕ, zero, suc, ◌+◌, ◌*◌, ◌/◌, ◌≤◌, ◌<◌, ◌≡◌, refl, ◌⊎◌, inl, inr, Bool, true, false, ◌&&◌, none,
  some, List, [], ◌∷◌, ◌++◌, arith, ◌==◌, leb, ◌||◌, Bool-cases, if◌then◌else◌, length, get_or,
  take, drop, length-append, All, All-append, All-take, All-drop, length-take, length-drop,
}
use rustydht_lib.Prelude.Bits.{leading_zeros, bit_xor_self}
use rustydht_lib.Common.Error.{ok, err, general_error}
use rustydht_lib.Common.Id.{NodeId, IsId, IsByte, xor, xor_bytes, prefix_bits, matching_prefix_bits}
use rustydht_lib.Common.Net.{Ipv4Addr, v4, v6}
use rustydht_lib.Common.Magic.{
  Draws, IdPrefixMagic, be_bytes4, to_magic, magic_from_ip, magic_from_id, magic_eq, mix, from_ip,
  is_loopback, is_valid_for_ip, make_mutant,
}

-- How many of the first numbers fail a test.
failures : (ℕ → Bool) → ℕ → ℕ
failures test zero = 0
failures test (suc k) = failures test k + (if test k then 0 else 1)

no_failures :
    (test : ℕ → Bool) (bound : ℕ) → failures test bound ≡ 0 → (y : ℕ) → y < bound → test y ≡ true
unfolding failures
no_failures test zero passed y below = absurd (omega arith)
no_failures test (suc k) passed y below = ground (arith, no_failures test k (omega arith) y)

-- The low three bits of a byte do not show under the mask 0xf8, and the result is a byte.
mixed_test : ℕ → ℕ → Bool
mixed_test x y =
    let m = bit_or (bit_and x 0xf8) (bit_and y 0x7) in
    (bit_and m 0xf8 == bit_and x 0xf8) && (m / 256 == 0)

mixed_table : failures (λ x. failures (mixed_test x) 256 == 0) 256 ≡ 0
unfolding failures mixed_test
mixed_table = refl

mixed_byte :
    (x y : ℕ)
    → x < 256
    → y < 256
    → let m = bit_or (bit_and x 0xf8) (bit_and y 0x7) in
      (bit_and m 0xf8 ≡ bit_and x 0xf8) × (m < 256)
unfolding mixed_test
mixed_byte x y h k =
    let row = no_failures (λ x. failures (mixed_test x) 256 == 0) 256 mixed_table x h in
    let t = no_failures (mixed_test x) 256 (ground (arith, row)) y k in ground (arith, t)

get_or-middle : (mid : List ℕ) (n s : ℕ) → length mid ≡ n → get_or (mid ++ s ∷ []) n 0 ≡ s
get_or-middle [] zero s h = refl
get_or-middle [] (suc n) s h = absurd (omega arith)
get_or-middle (x ∷ xs) zero s h = absurd (omega arith)
get_or-middle (x ∷ xs) (suc n) s h = get_or-middle xs n s (omega arith)

IsMagic : IdPrefixMagic → Type 0
IsMagic m = IsByte m.p0 × IsByte m.p1 × IsByte m.p2

mix-IsId :
    (m : IdPrefixMagic) (rng : Draws)
    → IsMagic m
    → rng.seed < 256
    → rng.low < 256
    → length rng.middle ≡ 16
    → All IsByte rng.middle
    → IsId (mix m rng)
unfolding mix IsMagic
mix-IsId m rng hp hs hl hm hb = record {
  size = omega (arith, length-append {0} rng.middle (rng.seed ∷ []));
  is_bytes = (
    hp.0,
    (
      hp.1,
      (
        (mixed_byte m.p2 rng.low hp.2 hl).1,
        All-append IsByte rng.middle (rng.seed ∷ []) hb (hs, tt),
      ),
    ),
  );
}

-- The id that is built from a magic prefix shows that prefix.
magic_eq-mix :
    (m : IdPrefixMagic) (rng : Draws)
    → IsMagic m
    → m.suffix ≡ rng.seed
    → rng.low < 256
    → length rng.middle ≡ 16
    → magic_eq m (magic_from_id (mix m rng)) ≡ true
unfolding magic_eq magic_from_id mix IsMagic
magic_eq-mix m rng hp hs hl hm =
    ground (arith, mixed_byte m.p2 rng.low hp.2 hl, get_or-middle rng.middle 16 rng.seed hm)

suffix-mix :
    (m : IdPrefixMagic) (rng : Draws)
    → length rng.middle ≡ 16
    → get_or (mix m rng).bytes 19 0 ≡ rng.seed
unfolding mix
suffix-mix m rng hm = get_or-middle rng.middle 16 rng.seed hm

-- For an IPv4 address the magic prefix is there, made of bytes, with the seed as suffix.
magic_from_ip_v4 :
    (checksum : List ℕ → ℕ) (ip : Ipv4Addr) (seed : ℕ)
    → (m : IdPrefixMagic) × (magic_from_ip checksum (v4 ip) seed ≡ some m)
      × IsMagic m
      × (m.suffix ≡ seed)
unfolding magic_from_ip to_magic be_bytes4 IsMagic
magic_from_ip_v4 checksum ip seed = (_, refl, (omega arith, omega arith, omega arith), refl)

-- For every IPv4 address, whatever the generator draws (bytes, 16 of them in the middle) and
-- whatever the checksum is, `from_ip` returns an id, and `is_valid_for_ip` accepts it for that
-- address.
pub is_valid_for_ip-from_ip :
    (checksum : List ℕ → ℕ) (rng : Draws) (ip : Ipv4Addr)
    → rng.seed < 256
    → rng.low < 256
    → length rng.middle ≡ 16
    → All IsByte rng.middle
    → (id : NodeId) × (from_ip checksum rng (v4 ip) ≡ some id)
      × IsId id
      × (is_valid_for_ip checksum id (v4 ip) ≡ some true)
unfolding from_ip is_valid_for_ip
is_valid_for_ip-from_ip checksum rng ip hs hl hm hb =
    let (m, e, bytes, same) = magic_from_ip_v4 checksum ip rng.seed in
    (
      mix m rng,
      rw (e, from_ip),
      mix-IsId m rng bytes hs hl hm hb,
      ground (arith, e, suffix-mix m rng hm, magic_eq-mix m rng bytes same hl hm),
    )

-- For an IPv6 address other than the loopback address `from_ip` and `is_valid_for_ip` panic: two
-- bytes of the checksum are read as an array of three.
pub ipv6_panics :
    (checksum : List ℕ → ℕ) (rng : Draws) (id : NodeId) (os : List ℕ)
    → is_loopback (v6 os) ≡ false
    → (from_ip checksum rng (v6 os) ≡ none) × (is_valid_for_ip checksum id (v6 os) ≡ none)
unfolding from_ip is_valid_for_ip magic_from_ip to_magic be_bytes4
ipv6_panics checksum rng id os h = (refl, rw (h, is_valid_for_ip))

prefix_bits-same :
    (n x : ℕ) (ys xs : List ℕ)
    → bit_xor x x ≡ 0
    → 8 * n ≤ prefix_bits (xor_bytes xs ys)
    → 8 * suc n ≤ prefix_bits (xor_bytes (x ∷ xs) (x ∷ ys))
unfolding prefix_bits xor_bytes leading_zeros
prefix_bits-same n x ys xs e h = rw e (omega arith)

prefix_bits-mutant :
    (n : ℕ) (xs ys : List ℕ)
    → n ≤ length xs
    → All IsByte xs
    → 8 * n ≤ prefix_bits (xor_bytes xs (take n xs ++ ys))
prefix_bits-mutant zero xs ys h k = omega arith
prefix_bits-mutant (suc n) [] ys h k = absurd (omega arith)
prefix_bits-mutant (suc n) (x ∷ xs) ys h k =
    prefix_bits-same n x (take n xs ++ ys) xs (bit_xor_self 8 x k.0)
      (prefix_bits-mutant n xs ys (omega arith) k.1)

-- `make_mutant` fails exactly for 0 and for 20 or more identical bytes; otherwise the mutant is
-- an id that shares at least that many whole bytes of prefix with the original.
pub make_mutant-shares :
    (id random : NodeId) (n : ℕ)
    → IsId id
    → IsId random
    → ((n ≡ 0) ⊎ (20 ≤ n)) × (make_mutant id n random ≡ err general_error)
      ⊎ ((m : NodeId) × (1 ≤ n)
          × (n < 20)
          × (make_mutant id n random ≡ ok m)
          × IsId m
          × (8 * n ≤ matching_prefix_bits id m))
unfolding make_mutant matching_prefix_bits xor
make_mutant-shares id random n h k = elim (Bool-cases ((n == 0) || leb 20 n)) [
  | inl e ↦ inl (ground arith, rw e)
  | inr e ↦ inr (
    record { bytes = take n id.bytes ++ drop n random.bytes },
    ground (arith, e),
    below n e,
    rw e,
    record {
      size = omega (
        arith,
        length-append {0} (take n id.bytes) (drop n random.bytes),
        length-take n id.bytes,
        length-drop n random.bytes,
        h.size,
        k.size,
        below n e,
      );
      is_bytes =
          All-append IsByte (take n id.bytes) (drop n random.bytes)
            (All-take IsByte n id.bytes h.is_bytes) (All-drop IsByte n random.bytes k.is_bytes);
    },
    prefix_bits-mutant n id.bytes (drop n random.bytes) (omega (arith, h.size, below n e))
        h.is_bytes,
  )
]
  where
    below : (i : ℕ) → ((i == 0) || leb 20 i) ≡ false → i < 20
    below i e = ground arith

-- For IPv4 the test of an id does not panic.
pub is_valid_for_ip_v4 :
    (checksum : List ℕ → ℕ) (id : NodeId) (ip : Ipv4Addr)
    → (valid : Bool) × (is_valid_for_ip checksum id (v4 ip) ≡ some valid)
unfolding is_valid_for_ip
is_valid_for_ip_v4 checksum id ip =
    let (m, e, bytes, same) = magic_from_ip_v4 checksum ip (get_or id.bytes 19 0) in
    elim (Bool-cases (is_loopback (v4 ip))) [
      | inl k ↦ (true, rw (is_valid_for_ip, k) refl)
      | inr k ↦ (magic_eq m (magic_from_id id), rw (is_valid_for_ip, k, e) refl)
    ]
