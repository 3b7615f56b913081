-- ===== src/Common/Net.antt =====
-- The addresses of `std::net` that the crate passes around, and `Node` (src/common/node.rs).
-- The flow label and the scope of an IPv6 socket address are left out: the crate never reads them.
pub mod Equality
use rustydht_lib.Prelude.{ℕ, ◌<◌, ◌≡◌, Bool, true, false, ◌&&◌, List, [], ◌∷◌, ◌==◌, length, All}
use rustydht_lib.Common.Id.{NodeId, IsByte, id_eq, bytes_eq}

pub record Ipv4Addr : Type 0 where
  pub a : ℕ
  pub b : ℕ
  pub c : ℕ
  pub d : ℕ

abbrev pub octets : Ipv4Addr → List ℕ
octets ip = ip.a ∷ ip.b ∷ ip.c ∷ ip.d ∷ []

pub data IpAddr : Type 0 where
  v4 : Ipv4Addr → IpAddr
  v6 : List ℕ → IpAddr

pub record SocketAddr : Type 0 where
  pub ip : IpAddr
  pub port : ℕ

-- What the types guarantee: bytes in the octets, 16 of them in an IPv6 address, and a `u16`.
abbrev pub IsIpAddr : IpAddr → Type 0
IsIpAddr (v4 ip) = All IsByte (octets ip)
IsIpAddr (v6 os) = (length os ≡ 16) × All IsByte os

pub record IsSocketAddr (s : SocketAddr) : Type 0 where
  pub is_ip : IsIpAddr s.ip
  pub is_port : s.port < 65536

unfoldable pub ip_eq : IpAddr → IpAddr → Bool
ip_eq (v4 x) (v4 y) = bytes_eq (octets x) (octets y)
ip_eq (v6 xs) (v6 ys) = bytes_eq xs ys
ip_eq _ _ = false

unfoldable pub sockaddr_eq : SocketAddr → SocketAddr → Bool
sockaddr_eq s t = ip_eq s.ip t.ip && (s.port == t.port)

unfoldable pub is_ipv4 : IpAddr → Bool
is_ipv4 (v4 ip) = true
is_ipv4 (v6 os) = false

pub record Node : Type 0 where
  pub id : NodeId
  pub address : SocketAddr

unfoldable pub node_eq : Node → Node → Bool
node_eq m n = id_eq m.id n.id && sockaddr_eq m.address n.address
