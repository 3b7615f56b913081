-- ===== src/Common/Net/Equality.antt =====
-- The tests on addresses are equivalences.
use rustydht_lib.Prelude.{ℕ, ◌≡◌, refl, ap, ◌∙◌, ◌↔◌, true, List, [], ◌∷◌, arith}
use rustydht_lib.Common.Id.{NodeId, id_eq}
use rustydht_lib.Common.Id.Distance.{bytes_eq_iff}
use rustydht_lib.Common.Net.{
  Ipv4Addr, IpAddr, v4, v6, SocketAddr, ip_eq, sockaddr_eq, octets, is_ipv4,
}

pub ip_eq-same : (a b q : IpAddr) → ip_eq a b ≡ true → ip_eq q a ≡ ip_eq q b
unfolding ip_eq
ip_eq-same (v4 a) (v4 b) (v4 q) e = ground (
  arith,
  bytes_eq_iff (octets a) (octets b),
  bytes_eq_iff (octets q) (octets a),
  bytes_eq_iff (octets q) (octets b),
)
ip_eq-same (v4 a) (v4 b) (v6 q) e = refl
ip_eq-same (v6 a) (v6 b) (v4 q) e = refl
ip_eq-same (v6 a) (v6 b) (v6 q) e =
    ground (arith, bytes_eq_iff a b, bytes_eq_iff q a, bytes_eq_iff q b)
ip_eq-same (v4 a) (v6 b) q e = absurd (ground arith)
ip_eq-same (v6 a) (v4 b) q e = absurd (ground arith)

pub ip_eq_refl : (a : IpAddr) → ip_eq a a ≡ true
unfolding ip_eq
ip_eq_refl (v4 a) = (bytes_eq_iff (octets a) (octets a)).1 refl
ip_eq_refl (v6 a) = (bytes_eq_iff a a).1 refl

pub ip_eq_sym : (a b : IpAddr) → ip_eq a b ≡ true → ip_eq b a ≡ true
ip_eq_sym a b e = ground (arith, ip_eq-same a b b e, ip_eq_refl b)

pub is_ipv4-same : (a b : IpAddr) → ip_eq a b ≡ true → is_ipv4 a ≡ is_ipv4 b
unfolding ip_eq is_ipv4
is_ipv4-same (v4 a) (v4 b) e = refl
is_ipv4-same (v6 a) (v6 b) e = refl
is_ipv4-same (v4 a) (v6 b) e = absurd (ground arith)
is_ipv4-same (v6 a) (v4 b) e = absurd (ground arith)

pub sockaddr_eq_refl : (a : SocketAddr) → sockaddr_eq a a ≡ true
unfolding sockaddr_eq
sockaddr_eq_refl a = ground (arith, ip_eq_refl a.ip)

pub sockaddr_eq_sym : (a b : SocketAddr) → sockaddr_eq a b ≡ true → sockaddr_eq b a ≡ true
unfolding sockaddr_eq
sockaddr_eq_sym a b e = ground (arith, ip_eq_sym a.ip b.ip)

pub sockaddr_eq-same :
    (a b q : SocketAddr) → sockaddr_eq a b ≡ true → sockaddr_eq q a ≡ sockaddr_eq q b
unfolding sockaddr_eq
sockaddr_eq-same a b q e = ground (arith, ip_eq-same a.ip b.ip q.ip)

pub id_eq-same : (a b q : NodeId) → id_eq a b ≡ true → id_eq q a ≡ id_eq q b
unfolding id_eq
id_eq-same a b q e = ground (
  arith,
  bytes_eq_iff a.bytes b.bytes,
  bytes_eq_iff q.bytes a.bytes,
  bytes_eq_iff q.bytes b.bytes,
)

pub id_eq-same_left : (a b q : NodeId) → id_eq a b ≡ true → id_eq a q ≡ id_eq b q
unfolding id_eq
id_eq-same_left a b q e = ground (
  arith,
  bytes_eq_iff a.bytes b.bytes,
  bytes_eq_iff a.bytes q.bytes,
  bytes_eq_iff b.bytes q.bytes,
)

pub sockaddr_eq-same_left :
    (a b q : SocketAddr) → sockaddr_eq a b ≡ true → sockaddr_eq a q ≡ sockaddr_eq b q
sockaddr_eq-same_left a b q e = ground (
  arith,
  sockaddr_eq-same a b q e,
  sockaddr_eq_sym a q,
  sockaddr_eq_sym q a,
  sockaddr_eq_sym b q,
  sockaddr_eq_sym q b,
)

of_octets : List ℕ → Ipv4Addr
of_octets (a ∷ b ∷ c ∷ d ∷ []) = record { a = a; b = b; c = c; d = d }
of_octets _ = record { a = 0; b = 0; c = 0; d = 0 }

ip_eq-path : (a b : IpAddr) → ip_eq a b ≡ true → a ≡ b
unfolding ip_eq of_octets
ip_eq-path (v4 a) (v4 b) e = ap (λ os. v4 (of_octets os)) ((bytes_eq_iff (octets a) (octets b)).0 e)
ip_eq-path (v6 a) (v6 b) e = ap v6 ((bytes_eq_iff a b).0 e)
ip_eq-path (v4 a) (v6 b) e = absurd (ground (arith, e))
ip_eq-path (v6 a) (v4 b) e = absurd (ground (arith, e))

pub sockaddr_eq_iff : (a b : SocketAddr) → (sockaddr_eq a b ≡ true) ↔ (a ≡ b)
unfolding sockaddr_eq
sockaddr_eq_iff a b = (
  λ e.
      let ip : a.ip ≡ b.ip = ip_eq-path a.ip b.ip (ground (arith, e)) in
      let port : a.port ≡ b.port = ground (arith, e) in
      ap (λ i. record { ip = i; port = a.port }) ip ∙ ap (λ p. record { ip = b.ip; port = p }) port,
  λ e. ap (λ z. sockaddr_eq z b) e ∙ ground (arith, ip_eq_refl b.ip),
)
