-- ===== src/Common/Consensus/Updates.antt =====
-- src/common/ipv4_addr_src.rs: what a vote does to the votes of every address.
use rustydht_lib.Prelude.{
  ℕ, ◌+◌, ◌≤◌, ◌<◌, ◌≡◌, refl, inl, inr, min, true, false, ◌||◌, none, some, List, [], ◌∷◌, ◌++◌,
  arith, ltb, ◌==◌, if◌then◌else◌, Bool-cases, Option-cases, All, All-map, All-append,
}
use rustydht_lib.Common.Net.{Ipv4Addr}
use rustydht_lib.Common.Consensus.{
  i32_max, ip4_eq, Ipv4Vote, Ipv4Consensus, new, find_vote, raise, sort_votes, add_vote,
}
use rustydht_lib.Common.Consensus.Votes.{
  votes_for, entries_for, IsCounted, IsConsensus, votes_for-sort_votes, All-sort_votes,
  sort_votes-IsDescending, votes_for_none, find_vote-none, find_vote-some, votes_for-raise,
  raise-IsCounted, ip4_eq-same, snoc-IsDescending, votes_for-append,
}

-- An entry found has no more than `most` votes.
find_vote-le :
    (most : ℕ) (p : Ipv4Addr) (vs : List Ipv4Vote) (n : ℕ)
    → find_vote p vs ≡ some n
    → All (IsCounted most) vs
    → n ≤ most
unfolding find_vote
find_vote-le most p [] n h hs = absurd (ground arith)
find_vote-le most p (v ∷ vs) n h hs = elim (Bool-cases (ip4_eq v.ip p)) [
  | inl e ↦ ground (arith, e, h, hs.0.1)
  | inr e ↦ ground (arith, e, find_vote-le most p vs n (ground (arith, e, h)) hs.1)
]

-- A consensus without votes that has sound limits keeps the invariant.
pub new-IsConsensus :
    (least most : ℕ) → least ≤ i32_max → 1 ≤ most → most < i32_max → IsConsensus (new least most)
unfolding new
new-IsConsensus least most h k l = record {
  min_limit = h;
  max_limit = (k, l);
  counted = tt;
  descending = tt;
  once = λ p. omega arith;
}

-- What a vote for an address adds.
abbrev voted : Ipv4Consensus → Ipv4Addr → Ipv4Addr → ℕ
voted c p x = if ip4_eq p x then min c.max_votes (votes_for x c.votes + 1) else votes_for x c.votes

All-counted : (most : ℕ) (vs : List Ipv4Vote) → All (IsCounted most) vs → All (λ v. 1 ≤ v.votes) vs
All-counted most vs h = All-map (IsCounted most) _ (λ v k. k.0) vs h

-- Two addresses that are equal have the same entries.
entries_for_eq :
    (p x : Ipv4Addr) (vs : List Ipv4Vote)
    → ip4_eq p x ≡ true
    → (entries_for p vs ≡ entries_for x vs) × (votes_for p vs ≡ votes_for x vs)
entries_for_eq p x [] e = (refl, refl)
entries_for_eq p x (v ∷ vs) e = ground (arith, entries_for_eq p x vs e, ip4_eq-same p x v.ip e)

add_vote_new :
    (c : Ipv4Consensus) (p x : Ipv4Addr)
    → IsConsensus c
    → find_vote p c.votes ≡ none
    → (c' : Ipv4Consensus) × (add_vote c p ≡ some c')
      × IsConsensus c'
      × (votes_for x c'.votes ≡ voted c p x)
unfolding add_vote
add_vote_new c p x h e =
    let w : Ipv4Vote = record { ip = p; votes = 1 } in
    let vs = c.votes in
    (
      record c { votes = vs ++ w ∷ [] },
      rw (add_vote, e) refl,
      record {
        min_limit = h.min_limit;
        max_limit = h.max_limit;
        counted = All-append _ vs (w ∷ []) h.counted ((omega arith, h.max_limit.0), tt);
        descending = snoc-IsDescending vs w h.descending (All-counted c.max_votes vs h.counted);
        once = λ q. ground (
          arith,
          votes_for-append q vs w,
          find_vote-none p vs e,
          h.once q,
          entries_for_eq p q vs,
        );
      },
      ground (
        arith,
        votes_for-append x vs w,
        find_vote-none p vs e,
        votes_for_none p vs,
        entries_for_eq p x vs,
        h.max_limit.0,
      ),
    )

add_vote_known :
    (c : Ipv4Consensus) (p x : Ipv4Addr) (n : ℕ)
    → IsConsensus c
    → find_vote p c.votes ≡ some n
    → (c' : Ipv4Consensus) × (add_vote c p ≡ some c')
      × IsConsensus c'
      × (votes_for x c'.votes ≡ voted c p x)
unfolding add_vote
add_vote_known c p x n h e =
    let vs = raise c.max_votes p c.votes in
    let most : n ≤ c.max_votes = find_vote-le c.max_votes p c.votes n e h.counted in
    let fits : (ltb i32_max c.max_votes || (n == i32_max)) ≡ false =
      ground (arith, h.max_limit.1) in
    (
      record c { votes = sort_votes vs },
      rw (add_vote, e, fits) refl,
      record {
        min_limit = h.min_limit;
        max_limit = h.max_limit;
        counted =
            All-sort_votes _ vs (raise-IsCounted c.max_votes p c.votes h.max_limit.0 h.counted);
        descending = sort_votes-IsDescending vs;
        once = λ q. ground (
          arith,
          votes_for-sort_votes q vs,
          votes_for-raise c.max_votes p q c.votes n e,
          h.once q,
        );
      },
      ground (
        arith,
        votes_for-sort_votes x vs,
        votes_for-raise c.max_votes p x c.votes n e,
        find_vote-some p c.votes n e (h.once p),
        entries_for_eq p x c.votes,
      ),
    )

-- On a list of votes that keeps the invariant, `add_vote` does not panic: it gives a list that
-- keeps it, in which the address voted for has one vote more, or the maximum if that is less, and
-- every other address the votes that it had.
pub add_vote_lem :
    (c : Ipv4Consensus) (p x : Ipv4Addr)
    → IsConsensus c
    → (c' : Ipv4Consensus) × (add_vote c p ≡ some c')
      × IsConsensus c'
      × (votes_for x c'.votes
          ≡ (if ip4_eq p x then min c.max_votes (votes_for x c.votes + 1) else votes_for x c.votes))
add_vote_lem c p x h = elim (Option-cases (find_vote p c.votes)) [
  | inl e ↦ add_vote_new c p x h e
  | inr e ↦ add_vote_known c p x e.0 h e.1
]
