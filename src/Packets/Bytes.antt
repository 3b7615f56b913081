-- ===== src/Packets/Bytes.antt =====
-- src/packets/public.rs: socket addresses, nodes, peers and ids as bytes.
pub mod Roundtrip
pub mod Samples
use rustydht_lib.Prelude.{
  ℕ, zero, suc, ◌+◌, ◌*◌, ◌/◌, ◌%◌, Bool, true, false, ◌&&◌, List, [], ◌∷◌, ◌++◌, ◌==◌, ltb, leb,
  Option, none, some, if◌then◌else◌, length, take, drop,
}
use rustydht_lib.Common.Error.{Result, ok, err, ◌>>=◌, packet_parse_error}
use rustydht_lib.Common.Id.{NodeId, id_size, from_bytes, to_vec}
use rustydht_lib.Common.Net.{IpAddr, v4, v6, SocketAddr, Node, octets}

-- Six bytes are an IPv4 address and a port; 18 bytes, and any other number, are errors.
unfoldable pub bytes_to_sockaddr : List ℕ → Result SocketAddr
bytes_to_sockaddr (a ∷ b ∷ c ∷ d ∷ p ∷ q ∷ []) =
    ok (record { ip = v4 (record { a = a; b = b; c = c; d = d }); port = p * 256 + q })
bytes_to_sockaddr _ = err packet_parse_error

unfoldable pub ip_bytes : IpAddr → List ℕ
ip_bytes (v4 ip) = octets ip
ip_bytes (v6 os) = os

unfoldable pub sockaddr_to_bytes : SocketAddr → List ℕ
sockaddr_to_bytes s = ip_bytes s.ip ++ s.port / 256 ∷ s.port % 256 ∷ []

unfoldable pub nodes4_to_bytes : List Node → List ℕ
nodes4_to_bytes [] = []
nodes4_to_bytes (n ∷ ns) = to_vec n.id ++ (sockaddr_to_bytes n.address ++ nodes4_to_bytes ns)

abbrev pub node4_byte_size : ℕ
node4_byte_size = id_size + 6

-- The rounds of the loop that are left, and the bytes from its offset on.
unfoldable pub read_nodes4 : ℕ → List ℕ → Result (List Node)
read_nodes4 zero bytes = ok []
read_nodes4 (suc n) bytes = do
  id ← from_bytes (take id_size bytes)
  sockaddr ← bytes_to_sockaddr (take 6 (drop id_size bytes))
  rest ← read_nodes4 n (drop node4_byte_size bytes)
  ok (record { id = id; address = sockaddr } ∷ rest)

unfoldable pub bytes_to_nodes4 : List ℕ → Result (List Node)
bytes_to_nodes4 bytes =
    if length bytes % node4_byte_size == 0
    then read_nodes4 (length bytes / node4_byte_size) bytes
    else err packet_parse_error

unfoldable pub peers_to_bytes : List SocketAddr → List (List ℕ)
peers_to_bytes [] = []
peers_to_bytes (p ∷ ps) = sockaddr_to_bytes p ∷ peers_to_bytes ps

unfoldable pub bytes_to_peers : List (List ℕ) → Result (List SocketAddr)
bytes_to_peers [] = ok []
bytes_to_peers (b ∷ bs) = do p ← bytes_to_sockaddr b; ps ← bytes_to_peers bs; ok (p ∷ ps)

-- The loops over the samples of a response to `sample_infohashes`.
unfoldable pub samples_to_bytes : List NodeId → List ℕ
samples_to_bytes [] = []
samples_to_bytes (id ∷ ids) = to_vec id ++ samples_to_bytes ids

unfoldable pub read_samples : ℕ → List ℕ → Result (List NodeId)
read_samples zero bytes = ok []
read_samples (suc n) bytes = do
  id ← from_bytes (take id_size bytes)
  rest ← read_samples n (drop id_size bytes)
  ok (id ∷ rest)

unfoldable pub bytes_to_samples : List ℕ → Result (List NodeId)
bytes_to_samples bytes =
    if length bytes % id_size == 0
    then read_samples (length bytes / id_size) bytes
    else err packet_parse_error

-- `std::str::from_utf8`: the bytes that must follow, and the bounds of the next of them.
unfoldable pub utf8_step : ℕ × ℕ × ℕ → ℕ → Option (ℕ × ℕ × ℕ)
utf8_step (zero, lo, hi) b =
    if ltb b 0x80
    then some (0, 0x80, 0xbf)
    else if leb 0xc2 b && leb b 0xdf
    then some (1, 0x80, 0xbf)
    else if b == 0xe0
    then some (2, 0xa0, 0xbf)
    else if b == 0xed
    then some (2, 0x80, 0x9f)
    else if leb 0xe1 b && leb b 0xef
    then some (2, 0x80, 0xbf)
    else if b == 0xf0
    then some (3, 0x90, 0xbf)
    else if leb 0xf1 b && leb b 0xf3
    then some (3, 0x80, 0xbf)
    else if b == 0xf4
    then some (3, 0x80, 0x8f)
    else none
utf8_step (suc n, lo, hi) b = if leb lo b && leb b hi then some (n, 0x80, 0xbf) else none

unfoldable pub utf8_from : ℕ × ℕ × ℕ → List ℕ → Bool
utf8_from (zero, lo, hi) [] = true
utf8_from (suc n, lo, hi) [] = false
utf8_from s (b ∷ bs) = elim (utf8_step s b) [ none ↦ false | some s' ↦ utf8_from s' bs ]

unfoldable pub is_utf8 : List ℕ → Bool
is_utf8 bs = utf8_from (0, 0x80, 0xbf) bs
