-- ===== src/Tests/Data.antt =====
-- Ids, addresses, nodes and buckets to run the model on.
use rustydht_lib.Prelude.{
  ℕ, zero, suc, ◌≤◌, ◌<◌, ◌≡◌, refl, none, List, [], ◌∷◌, ◌++◌, arith, length, replicate, All,
  All-append, count_if,
}
use rustydht_lib.Common.Id.{NodeId, IsId, IsByte, matching_prefix_bits, prefix_bits, xor, xor_bytes}
use rustydht_lib.Prelude.Bits.{leading_zeros}
use rustydht_lib.Storage.Vec.{bucket_at}
use rustydht_lib.Storage.NodeWrapper.{NodeWrapper, node_wrapper_bucketable}
use rustydht_lib.Storage.Buckets.{Buckets, dest_idx, dest_idx_for_id}
use rustydht_lib.Storage.Buckets.Moves.{Belongs}
use rustydht_lib.Storage.Buckets.Rounds.{far}
use rustydht_lib.Storage.Buckets.Invariant.{IsValid}
use rustydht_lib.Common.Net.{v4, Ipv4Addr, SocketAddr, Node}

-- The id that ends with the byte and starts with zeros.
abbrev pub id_of : ℕ → NodeId
id_of n = record { bytes = replicate 19 0 ++ n ∷ [] }

-- The id that starts with the byte.
abbrev pub id_from : ℕ → NodeId
id_from n = record { bytes = n ∷ replicate 19 0 }

pub All-zeros : (n : ℕ) → All IsByte (replicate n 0)
All-zeros zero = tt
All-zeros (suc n) = (omega arith, All-zeros n)

pub id_of-IsId : (n : ℕ) → n < 256 → IsId (id_of n)
id_of-IsId n h = record {
  size = refl;
  is_bytes = All-append IsByte (replicate 19 0) (n ∷ []) (All-zeros 19) (h, tt);
}

pub id_from-IsId : (n : ℕ) → n < 256 → IsId (id_from n)
id_from-IsId n h = record { size = refl; is_bytes = (h, All-zeros 19) }

abbrev pub local_ip : Ipv4Addr
local_ip = record { a = 10; b = 0; c = 0; d = 7 }

abbrev pub local_address : SocketAddr
local_address = record { ip = v4 local_ip; port = 6881 }

abbrev pub node_of : ℕ → Node
node_of n = record { id = id_from n; address = local_address }

abbrev pub seen_at : ℕ → ℕ → NodeWrapper
seen_at n t = record { node = node_of n; first_seen = t; last_seen = t; last_verified = none }

-- One bucket around the zero id.
abbrev pub one_bucket : List NodeWrapper → Buckets NodeWrapper
one_bucket xs = record { our_id = id_of 0; buckets = xs ∷ []; k = 2 }

All-Belongs : (xs : List NodeWrapper) → All (Belongs (id_of 0) 1 0) xs
unfolding dest_idx dest_idx_for_id
All-Belongs [] = tt
All-Belongs (x ∷ xs) = (omega arith, All-Belongs xs)

pub one_bucket-IsValid :
    (xs : List NodeWrapper)
    → length xs ≤ 2
    → count_if (far (id_of 0)) xs ≡ 0
    → IsValid (one_bucket xs)
one_bucket-IsValid xs h e = record {
  placed = λ j. elim j as (λ i. All (Belongs (id_of 0) 1 i) (bucket_at (xs ∷ []) i)) [
    | zero ↦ All-Belongs xs
    | suc i ↦ tt
  ];
  small =
      λ j. elim j as (λ i. length (bucket_at (xs ∷ []) i) ≤ 2) [ zero ↦ h | suc i ↦ omega arith ];
  near = omega (arith, e);
  many = omega arith;
  some_bucket = omega arith;
}

-- Two nodes that differ from the zero id in the first bit.
abbrev pub full : Buckets NodeWrapper
full = one_bucket (seen_at 128 1 ∷ seen_at 192 2 ∷ [])

pub full-IsValid : IsValid full
unfolding matching_prefix_bits prefix_bits xor xor_bytes leading_zeros node_wrapper_bucketable
full-IsValid = one_bucket-IsValid (seen_at 128 1 ∷ seen_at 192 2 ∷ []) (omega arith) refl
