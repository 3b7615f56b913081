-- ===== src/Tests/Votes.antt =====
-- src/common/ipv4_addr_src.rs: the theorems on votes at two addresses.
use rustydht_lib.Prelude.{◌+◌, ◌≡◌, min, some, Option, [], ◌∷◌, arith, if◌then◌else◌}
use rustydht_lib.Common.Id.{bytes_eq}
use rustydht_lib.Common.Net.{Ipv4Addr}
use rustydht_lib.Common.Consensus.{ip4_eq, Ipv4Consensus, get_best_ipv4, add_vote}
use rustydht_lib.Common.Consensus.Votes.{votes_for, IsConsensus}
use rustydht_lib.Common.Consensus.Updates.{add_vote_lem}
use rustydht_lib.Common.Consensus.Choice.{IsBest, get_best_ipv4_lem}
use rustydht_lib.Tests.Data.{local_ip}

abbrev other_ip : Ipv4Addr
other_ip = record { a = 10; b = 0; c = 0; d = 8 }

-- Three votes for one address, one for the other.
abbrev pub voted : Ipv4Consensus
voted = record {
  min_votes = 2;
  max_votes = 10;
  votes = record { ip = local_ip; votes = 3 } ∷ record { ip = other_ip; votes = 1 } ∷ [];
}

pub voted-IsConsensus : IsConsensus voted
unfolding ip4_eq bytes_eq
voted-IsConsensus = record {
  min_limit = omega arith;
  max_limit = (omega arith, omega arith);
  counted = ((omega arith, omega arith), ((omega arith, omega arith), tt));
  descending = ((omega arith, tt), (tt, tt));
  once = λ p. ground arith;
}

add_vote_example :
    (c' : Ipv4Consensus) × (add_vote voted other_ip ≡ some c')
    × IsConsensus c'
    × (votes_for other_ip c'.votes ≡ (
        if ip4_eq other_ip other_ip
        then min voted.max_votes (votes_for other_ip voted.votes + 1)
        else votes_for other_ip voted.votes))
add_vote_example = add_vote_lem voted other_ip other_ip voted-IsConsensus

choice_example :
    (best : Option Ipv4Addr) × (get_best_ipv4 voted ≡ some best) × IsBest voted other_ip best
choice_example = get_best_ipv4_lem voted other_ip voted-IsConsensus
