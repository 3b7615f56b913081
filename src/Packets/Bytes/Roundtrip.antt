-- ===== src/Packets/Bytes/Roundtrip.antt =====
-- src/packets/public.rs: what is written as bytes is read back, and what is read was written so.
use rustydht_lib.Prelude.{
  ℕ, zero, suc, ◌+◌, ◌*◌, ◌/◌, ◌%◌, ◌<◌, ◌≡◌, refl, ◌∙◌, ap, true, List, [], ◌∷◌, ◌++◌, arith,
  length, length-append, length-take, length-drop, take, drop, drop-drop, take-append, drop-append,
  take-append-drop, All, All-take, All-drop,
}
use rustydht_lib.Common.Error.{ok}
use rustydht_lib.Common.Id.{NodeId, IsId, IsByte, id_size, from_bytes, to_vec}
use rustydht_lib.Common.Net.{IpAddr, v4, v6, SocketAddr, Node, is_ipv4}
use rustydht_lib.Packets.Bytes.{
  bytes_to_sockaddr, ip_bytes, sockaddr_to_bytes, nodes4_to_bytes, read_nodes4, bytes_to_nodes4,
  node4_byte_size,
}

-- An address that fits six bytes: IPv4, and a port that is a `u16`.
pub record IsV4 (s : SocketAddr) : Type 0 where
  pub is_v4 : is_ipv4 s.ip ≡ true
  pub is_port : s.port < 65536

pub record IsNode4 (n : Node) : Type 0 where
  pub is_id : IsId n.id
  pub is_address : IsV4 n.address

pub from_bytes_whole :
    (xs : List ℕ) → length xs ≡ id_size → from_bytes xs ≡ ok (record { bytes = xs })
unfolding from_bytes
from_bytes_whole xs h = rw h refl

pub length-to_vec : (id : NodeId) → IsId id → length (to_vec id) ≡ id_size
unfolding to_vec
length-to_vec id h = h.size

pub from_bytes-to_vec : (id : NodeId) → IsId id → from_bytes (to_vec id) ≡ ok id
unfolding to_vec
from_bytes-to_vec id h = from_bytes_whole id.bytes h.size

sockaddr_of :
    (ip : IpAddr) (port : ℕ)
    → is_ipv4 ip ≡ true
    → port < 65536
    → (bytes_to_sockaddr (ip_bytes ip ++ port / 256 ∷ port % 256 ∷ [])
        ≡ ok (record { ip = ip; port = port }))
      × (length (ip_bytes ip) ≡ 4)
unfolding bytes_to_sockaddr ip_bytes is_ipv4
sockaddr_of (v4 a) port e h = (ap (λ q. ok (record { ip = v4 a; port = q })) (omega arith), refl)
sockaddr_of (v6 os) port e h = absurd (ground (arith, e))

pub bytes_to_sockaddr-sockaddr_to_bytes :
    (s : SocketAddr) → IsV4 s → bytes_to_sockaddr (sockaddr_to_bytes s) ≡ ok s
unfolding sockaddr_to_bytes
bytes_to_sockaddr-sockaddr_to_bytes s h = (sockaddr_of s.ip s.port h.is_v4 h.is_port).0

length-sockaddr_to_bytes : (s : SocketAddr) → IsV4 s → length (sockaddr_to_bytes s) ≡ 6
unfolding sockaddr_to_bytes
length-sockaddr_to_bytes s h = omega (
  arith,
  length-append {0} (ip_bytes s.ip) (s.port / 256 ∷ s.port % 256 ∷ []),
  (sockaddr_of s.ip s.port h.is_v4 h.is_port).1,
)

-- Six bytes are an address, and the address gives the bytes again.
pub sockaddr_total :
    (bs : List ℕ)
    → length bs ≡ 6
    → All IsByte bs
    → (s : SocketAddr) × (bytes_to_sockaddr bs ≡ ok s) × IsV4 s × (sockaddr_to_bytes s ≡ bs)
unfolding bytes_to_sockaddr sockaddr_to_bytes ip_bytes is_ipv4
sockaddr_total (a ∷ b ∷ c ∷ d ∷ p ∷ q ∷ []) h (ha, (hb, (hc, (hd, (hp, (hq, u)))))) = (
  record { ip = v4 (record { a = a; b = b; c = c; d = d }); port = p * 256 + q },
  refl,
  record { is_v4 = refl; is_port = omega arith },
  rw (high, low) refl,
)
  where
    high : (p * 256 + q) / 256 ≡ p
    high = omega arith

    low : (p * 256 + q) % 256 ≡ q
    low = omega arith
sockaddr_total [] h hb = absurd (omega arith)
sockaddr_total (a ∷ []) h hb = absurd (omega arith)
sockaddr_total (a ∷ b ∷ []) h hb = absurd (omega arith)
sockaddr_total (a ∷ b ∷ c ∷ []) h hb = absurd (omega arith)
sockaddr_total (a ∷ b ∷ c ∷ d ∷ []) h hb = absurd (omega arith)
sockaddr_total (a ∷ b ∷ c ∷ d ∷ p ∷ []) h hb = absurd (omega arith)
sockaddr_total (a ∷ b ∷ c ∷ d ∷ p ∷ q ∷ r ∷ bs) h hb = absurd (omega arith)

length-nodes4_to_bytes :
    (ns : List Node) → All IsNode4 ns → length (nodes4_to_bytes ns) ≡ 26 * length ns
unfolding nodes4_to_bytes to_vec
length-nodes4_to_bytes [] h = refl
length-nodes4_to_bytes (n ∷ ns) h =
    let id_length = h.0.is_id.size in
    omega (
      arith,
      id_length,
      length-append {0} n.id.bytes (sockaddr_to_bytes n.address ++ nodes4_to_bytes ns),
      length-append {0} (sockaddr_to_bytes n.address) (nodes4_to_bytes ns),
      length-sockaddr_to_bytes n.address h.0.is_address,
      length-nodes4_to_bytes ns h.1,
    )

read_nodes4-nodes4_to_bytes :
    (ns : List Node) → All IsNode4 ns → read_nodes4 (length ns) (nodes4_to_bytes ns) ≡ ok ns
unfolding nodes4_to_bytes read_nodes4
read_nodes4-nodes4_to_bytes [] h = refl
read_nodes4-nodes4_to_bytes (n ∷ ns) h =
    rw
      (
        id_part,
        drop-append id_size (to_vec n.id) (address ++ rest) id_length,
        take-append 6 address rest address_length,
        bytes_to_sockaddr-sockaddr_to_bytes n.address h.0.is_address,
        rest_part,
        read_nodes4-nodes4_to_bytes ns h.1,
      )
      refl
  where
    address : List ℕ
    address = sockaddr_to_bytes n.address

    rest : List ℕ
    rest = nodes4_to_bytes ns

    id_length : length (to_vec n.id) ≡ id_size
    id_length = length-to_vec n.id h.0.is_id

    address_length : length address ≡ 6
    address_length = length-sockaddr_to_bytes n.address h.0.is_address

    id_part : from_bytes (take id_size (to_vec n.id ++ (address ++ rest))) ≡ ok n.id
    id_part =
        ap from_bytes (take-append id_size (to_vec n.id) (address ++ rest) id_length)
        ∙ from_bytes-to_vec n.id h.0.is_id

    rest_part : drop node4_byte_size (to_vec n.id ++ (address ++ rest)) ≡ rest
    rest_part =
        drop-drop id_size 6 (to_vec n.id ++ (address ++ rest))
        ∙ ap (drop 6) (drop-append id_size (to_vec n.id) (address ++ rest) id_length)
        ∙ drop-append 6 address rest address_length

-- IPv4 nodes are read back from their bytes.
pub bytes_to_nodes4-nodes4_to_bytes :
    (ns : List Node) → All IsNode4 ns → bytes_to_nodes4 (nodes4_to_bytes ns) ≡ ok ns
unfolding bytes_to_nodes4
bytes_to_nodes4-nodes4_to_bytes ns h = rw (whole, many) (read_nodes4-nodes4_to_bytes ns h)
  where
    whole : length (nodes4_to_bytes ns) % node4_byte_size ≡ 0
    whole = omega (arith, length-nodes4_to_bytes ns h)

    many : length (nodes4_to_bytes ns) / node4_byte_size ≡ length ns
    many = omega (arith, length-nodes4_to_bytes ns h)

read_nodes4_total :
    (n : ℕ) (bs : List ℕ)
    → length bs ≡ 26 * n
    → All IsByte bs
    → (ns : List Node) × (read_nodes4 n bs ≡ ok ns) × All IsNode4 ns × (nodes4_to_bytes ns ≡ bs)
unfolding read_nodes4 nodes4_to_bytes to_vec
read_nodes4_total zero [] h hb = ([], refl, tt, refl)
read_nodes4_total zero (x ∷ bs) h hb = absurd (omega arith)
read_nodes4_total (suc n) bs h hb =
    let (s, s_run, s_v4, s_bytes) =
      sockaddr_total (take 6 (drop id_size bs))
        (omega (arith, length-take {0} 6 (drop id_size bs), length-drop {0} id_size bs))
        (All-take IsByte 6 _ (All-drop IsByte id_size bs hb)) in
    let (ns, run, v4s, bytes) =
      read_nodes4_total n (drop node4_byte_size bs)
        (omega (arith, length-drop {0} node4_byte_size bs))
        (All-drop IsByte node4_byte_size bs hb) in
    (
      record { id = record { bytes = take id_size bs }; address = s } ∷ ns,
      rw (from_bytes_whole (take id_size bs) id_length, s_run, run) refl,
      (
        record {
          is_id = record { size = id_length; is_bytes = All-take IsByte id_size bs hb };
          is_address = s_v4;
        },
        v4s,
      ),
      ap (λ xs. take id_size bs ++ (xs ++ nodes4_to_bytes ns)) s_bytes
          ∙ ap (λ xs. take id_size bs ++ (take 6 (drop id_size bs) ++ xs))
              (bytes ∙ drop-drop id_size 6 bs)
          ∙ ap (λ xs. take id_size bs ++ xs) (take-append-drop 6 (drop id_size bs))
          ∙ take-append-drop id_size bs,
    )
  where
    id_length : length (take id_size bs) ≡ id_size
    id_length = omega (arith, length-take {0} id_size bs)

-- Any bytes, a multiple of 26 of them, are nodes, with IPv4 addresses, that give the bytes again.
pub bytes_to_nodes4_total :
    (bs : List ℕ)
    → All IsByte bs
    → length bs % 26 ≡ 0
    → (ns : List Node) × (bytes_to_nodes4 bs ≡ ok ns) × All IsNode4 ns × (nodes4_to_bytes ns ≡ bs)
unfolding bytes_to_nodes4
bytes_to_nodes4_total bs hb h =
    let (ns, run, v4s, bytes) = read_nodes4_total (length bs / 26) bs (omega arith) hb in
    (ns, rw h run, v4s, bytes)
