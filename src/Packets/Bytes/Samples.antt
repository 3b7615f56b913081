-- ===== src/Packets/Bytes/Samples.antt =====
-- src/packets/public.rs: peers and samples are read back from their bytes.
use rustydht_lib.Prelude.{
  ◌*◌, ◌/◌, ◌%◌, ◌≡◌, refl, List, [], ◌∷◌, arith, length, length-append, take-append, drop-append,
  All,
}
use rustydht_lib.Common.Error.{ok}
use rustydht_lib.Common.Id.{NodeId, IsId, id_size, to_vec}
use rustydht_lib.Common.Net.{SocketAddr}
use rustydht_lib.Packets.Bytes.{
  peers_to_bytes, bytes_to_peers, samples_to_bytes, read_samples, bytes_to_samples,
}
use rustydht_lib.Packets.Bytes.Roundtrip.{
  IsV4, length-to_vec, from_bytes-to_vec, bytes_to_sockaddr-sockaddr_to_bytes,
}

pub bytes_to_peers-peers_to_bytes :
    (ps : List SocketAddr) → All IsV4 ps → bytes_to_peers (peers_to_bytes ps) ≡ ok ps
unfolding bytes_to_peers peers_to_bytes
bytes_to_peers-peers_to_bytes [] h = refl
bytes_to_peers-peers_to_bytes (p ∷ ps) h =
    rw (bytes_to_sockaddr-sockaddr_to_bytes p h.0, bytes_to_peers-peers_to_bytes ps h.1) refl

length-samples_to_bytes :
    (ids : List NodeId) → All IsId ids → length (samples_to_bytes ids) ≡ 20 * length ids
unfolding samples_to_bytes
length-samples_to_bytes [] h = refl
length-samples_to_bytes (id ∷ ids) h = omega (
  arith,
  length-append {0} (to_vec id) (samples_to_bytes ids),
  length-to_vec id h.0,
  length-samples_to_bytes ids h.1,
)

read_samples-samples_to_bytes :
    (ids : List NodeId) → All IsId ids → read_samples (length ids) (samples_to_bytes ids) ≡ ok ids
unfolding read_samples samples_to_bytes
read_samples-samples_to_bytes [] h = refl
read_samples-samples_to_bytes (id ∷ ids) h =
    rw
      (
        take-append id_size (to_vec id) (samples_to_bytes ids) (length-to_vec id h.0),
        drop-append id_size (to_vec id) (samples_to_bytes ids) (length-to_vec id h.0),
        from_bytes-to_vec id h.0,
        read_samples-samples_to_bytes ids h.1,
      )
      refl

pub bytes_to_samples-samples_to_bytes :
    (ids : List NodeId) → All IsId ids → bytes_to_samples (samples_to_bytes ids) ≡ ok ids
unfolding bytes_to_samples
bytes_to_samples-samples_to_bytes ids h = rw (whole, many) (read_samples-samples_to_bytes ids h)
  where
    whole : length (samples_to_bytes ids) % id_size ≡ 0
    whole = omega (arith, length-samples_to_bytes ids h)

    many : length (samples_to_bytes ids) / id_size ≡ length ids
    many = omega (arith, length-samples_to_bytes ids h)
