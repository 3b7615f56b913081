-- ===== src/Common/Consensus.antt =====
-- src/common/ipv4_addr_src.rs: `IPV4Consensus`, and `StaticIPV4AddrSource`. Votes are never
-- negative, so `std::cmp::max(0, v - 1)` is the subtraction that stops at 0. `none` is a panic: a
-- limit that is no `i32`, or a count of votes that overflows one.
pub mod Votes
pub mod Updates
pub mod Choice
use rustydht_lib.Prelude.{
  ℕ, ◌+◌, ◌-◌, min, Bool, true, false, ◌||◌, Option, none, some, List, [], ◌∷◌, ◌++◌, ltb, leb,
  ◌==◌, if◌then◌else◌,
}
use rustydht_lib.Common.Id.{bytes_eq}
use rustydht_lib.Common.Net.{Ipv4Addr, octets}

abbrev pub i32_max : ℕ
i32_max = 2147483647

unfoldable pub ip4_eq : Ipv4Addr → Ipv4Addr → Bool
ip4_eq a b = bytes_eq (octets a) (octets b)

pub record StaticIpv4AddrSource : Type 0 where
  pub ip : Ipv4Addr

unfoldable pub get_static_ipv4 : StaticIpv4AddrSource → Option Ipv4Addr
get_static_ipv4 s = some s.ip

pub record Ipv4Vote : Type 0 where
  pub ip : Ipv4Addr
  pub votes : ℕ

pub record Ipv4Consensus : Type 0 where
  pub min_votes : ℕ
  pub max_votes : ℕ
  pub votes : List Ipv4Vote

unfoldable pub new : ℕ → ℕ → Ipv4Consensus
new min_votes max_votes = record { min_votes = min_votes; max_votes = max_votes; votes = [] }

-- The test of the first vote against `min_votes`.
unfoldable pub best_of : ℕ → List Ipv4Vote → Option (Option Ipv4Addr)
best_of min_votes [] = some none
best_of min_votes (v ∷ vs) =
    if ltb i32_max min_votes
    then none
    else if leb min_votes v.votes
    then some (some v.ip)
    else some none

unfoldable pub get_best_ipv4 : Ipv4Consensus → Option (Option Ipv4Addr)
get_best_ipv4 c = best_of c.min_votes c.votes

-- The votes of the first entry for the address.
unfoldable pub find_vote : Ipv4Addr → List Ipv4Vote → Option ℕ
find_vote p [] = none
find_vote p (v ∷ vs) = if ip4_eq v.ip p then some v.votes else find_vote p vs

-- The loop of `add_vote`, which stops at the first entry for the address.
unfoldable pub raise : ℕ → Ipv4Addr → List Ipv4Vote → List Ipv4Vote
raise max_votes p [] = []
raise max_votes p (v ∷ vs) =
    if ip4_eq v.ip p
    then record v { votes = min max_votes (v.votes + 1) } ∷ vs
    else v ∷ raise max_votes p vs

-- `sort_by(|a, b| b.votes.cmp(&a.votes))`: from most to fewest votes, and stable.
unfoldable pub insert_vote : Ipv4Vote → List Ipv4Vote → List Ipv4Vote
insert_vote v [] = v ∷ []
insert_vote v (w ∷ ws) = if ltb v.votes w.votes then w ∷ insert_vote v ws else v ∷ w ∷ ws

unfoldable pub sort_votes : List Ipv4Vote → List Ipv4Vote
sort_votes [] = []
sort_votes (v ∷ vs) = insert_vote v (sort_votes vs)

unfoldable pub add_vote : Ipv4Consensus → Ipv4Addr → Option Ipv4Consensus
add_vote c proposed_addr = elim (find_vote proposed_addr c.votes) [
  | none ↦ some (record c { votes = c.votes ++ record { ip = proposed_addr; votes = 1 } ∷ [] })
  | some n ↦
      if ltb i32_max c.max_votes || (n == i32_max)
      then none
      else some (record c { votes = sort_votes (raise c.max_votes proposed_addr c.votes) })
]

unfoldable pub decay_votes : List Ipv4Vote → List Ipv4Vote
decay_votes [] = []
decay_votes (v ∷ vs) = record v { votes = v.votes - 1 } ∷ decay_votes vs

unfoldable pub retain_positive : List Ipv4Vote → List Ipv4Vote
retain_positive [] = []
retain_positive (v ∷ vs) = if ltb 0 v.votes then v ∷ retain_positive vs else retain_positive vs

unfoldable pub decay : Ipv4Consensus → Ipv4Consensus
decay c = record c { votes = retain_positive (decay_votes c.votes) }
