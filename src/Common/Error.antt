-- ===== src/Common/Error.antt =====
-- src/errors.rs: `RustyDHTError`, without the wrapped errors of other crates, which the code
-- only prints. `Result` is Rust's, with this error.
use Prim.Native.String.{String}
use rustydht_lib.Prelude.{Bool, true, false}

pub data RustyDhtError : Type 0 where
  packet_parse_error packet_serialization_error general_error conntrack_error : RustyDhtError
  socket_send_error socket_recv_error timeout_error shutdown_error : RustyDhtError
  builder_missing_field_error builder_invalid_combo_error : String → RustyDhtError

pub data Result {ℓ} (A : Type ℓ) : Type ℓ where
  ok : A → Result A
  err : RustyDhtError → Result A

-- The `?` operator.
infixl 5 ◌>>=◌
abbrev pub ◌>>=◌ {ℓ κ} : {A : Type ℓ} {B : Type κ} → Result A → (A → Result B) → Result B
ok a >>= f = f a
err e >>= f = err e

abbrev pub map_ok {ℓ κ} : {A : Type ℓ} {B : Type κ} → (A → B) → Result A → Result B
map_ok f (ok a) = ok (f a)
map_ok f (err e) = err e

abbrev pub is_ok {ℓ} : {A : Type ℓ} → Result A → Bool
is_ok (ok a) = true
is_ok (err e) = false
