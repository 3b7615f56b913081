-- ===== src/Dht/Operations/Inserting.antt =====
-- src/dht/operations.rs: the set of the peers that a search found.
use rustydht_lib.Prelude.{
  ℕ, ◌+◌, ◌≡◌, ap, ◌∙◌, inl, inr, ◌&&◌, if◌then◌else◌, List, [], ◌∷◌, arith, Bool-cases, count_if,
  min, ◌==◌,
}
use rustydht_lib.Common.Net.{SocketAddr, sockaddr_eq}
use rustydht_lib.Common.Net.Equality.{sockaddr_eq-same, sockaddr_eq-same_left}
use rustydht_lib.Storage.NodeWrapper.{node_wrapper_bucketable}
use rustydht_lib.Dht.Operations.{insert_peer, insert_peers}

-- An address that is there already is not inserted again.
count-insert_peer :
    (q : SocketAddr) (ps : List SocketAddr) (p : SocketAddr)
    → count_if (sockaddr_eq q) (insert_peer ps p)
      ≡ count_if (sockaddr_eq q) ps
        + (if sockaddr_eq q p && (count_if (sockaddr_eq q) ps == 0) then 1 else 0)
unfolding insert_peer
count-insert_peer q [] p = ground arith
count-insert_peer q (x ∷ xs) p = elim (Bool-cases (sockaddr_eq x p)) [
  | inl e ↦ ground (arith, e, sockaddr_eq-same x p q e)
  | inr e ↦ elim (Bool-cases (sockaddr_eq q x)) [
    | inl here ↦ ground (arith, e, here, count-insert_peer q xs p, sockaddr_eq-same_left q x p here)
    | inr away ↦ ground (arith, e, away, count-insert_peer q xs p)
  ]
]

pub count-insert_peers :
    (q : SocketAddr) (n : ℕ) (ps qs : List SocketAddr)
    → count_if (sockaddr_eq q) ps ≡ min 1 n
    → count_if (sockaddr_eq q) (insert_peers ps qs) ≡ min 1 (n + count_if (sockaddr_eq q) qs)
unfolding insert_peers
count-insert_peers q n ps [] h = ground (arith, h)
count-insert_peers q n ps (p ∷ rest) h =
    let inserted : count_if (sockaddr_eq q) (insert_peer ps p)
        ≡ min 1 (n + (if sockaddr_eq q p then 1 else 0)) =
      ground (arith, h, count-insert_peer q ps p) in
    count-insert_peers q (n + (if sockaddr_eq q p then 1 else 0)) (insert_peer ps p) rest inserted
    ∙ ap (min 1) (omega arith)
