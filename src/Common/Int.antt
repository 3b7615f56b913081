-- ===== src/Common/Int.antt =====
-- Signed integers over the native numbers, and the casts of Rust between them.
use rustydht_lib.Prelude.{ℕ, ◌-◌, ◌^◌, ◌<◌, Bool, false, ltb, leb, if◌then◌else◌}
use rustydht_lib.Common.Error.{Result, ok, err, packet_parse_error}

-- `negsuc n` is −1 − n.
pub data ℤ : Type 0 where
  pos negsuc : ℕ → ℤ

-- `i >= n`
abbrev pub is_at_least : ℤ → ℕ → Bool
is_at_least (pos m) n = leb n m
is_at_least (negsuc m) n = false

-- An `i32`.
abbrev pub IsI32 : ℤ → Type 0
IsI32 (pos n) = n < 2147483648
IsI32 (negsuc n) = n < 2147483648

-- `code.try_into()` from `i64` to `i32`.
unfoldable pub to_i32 : ℤ → Result ℤ
to_i32 (pos n) = if ltb n 2147483648 then ok (pos n) else err packet_parse_error
to_i32 (negsuc n) = if ltb n 2147483648 then ok (negsuc n) else err packet_parse_error

-- `i as u64`: the two's complement.
unfoldable pub to_u64 : ℤ → ℕ
to_u64 (pos n) = n
to_u64 (negsuc n) = 2 ^ 64 - 1 - n
