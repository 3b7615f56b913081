-- ===== src/Common/Consensus/Choice.antt =====
-- src/common/ipv4_addr_src.rs: what the decay does to the votes of every address, and the choice.
use mathlib.Core.Path.{subst}
use rustydht_lib.Prelude.{
  ℕ, ◌-◌, ◌≤◌, ◌<◌, ◌≡◌, refl, inl, inr, max, false, Option, none, some, List, [], ◌∷◌, arith, ltb,
  leb, Bool-cases, All,
}
use rustydht_lib.Common.Net.{Ipv4Addr}
use rustydht_lib.Common.Consensus.{
  i32_max, Ipv4Vote, Ipv4Consensus, best_of, get_best_ipv4, decay_votes, retain_positive, decay,
}
use rustydht_lib.Common.Consensus.Votes.{
  IsDescending, votes_for, entries_for, IsCounted, IsConsensus, votes_for_none, ip4_eq_refl,
}

-- One entry after the decay.
decayed-IsCounted :
    (most : ℕ) (vs : List Ipv4Vote)
    → All (IsCounted most) vs
    → All (IsCounted most) (retain_positive (decay_votes vs))
unfolding retain_positive decay_votes
decayed-IsCounted most [] h = tt
decayed-IsCounted most (v ∷ vs) h = elim (Bool-cases (ltb 0 (v.votes - 1))) [
  | inl e ↦ rw e ((ground arith, ground arith), decayed-IsCounted most vs h.1)
  | inr e ↦ rw e (decayed-IsCounted most vs h.1)
]

decayed-le :
    (b : ℕ) (vs : List Ipv4Vote)
    → All (λ w. w.votes ≤ b) vs
    → All (λ w. w.votes ≤ b - 1) (retain_positive (decay_votes vs))
unfolding retain_positive decay_votes
decayed-le b [] h = tt
decayed-le b (v ∷ vs) h = elim (Bool-cases (ltb 0 (v.votes - 1))) [
  | inl e ↦ rw e (ground arith, decayed-le b vs h.1)
  | inr e ↦ rw e (decayed-le b vs h.1)
]

decayed-IsDescending :
    (vs : List Ipv4Vote) → IsDescending vs → IsDescending (retain_positive (decay_votes vs))
unfolding retain_positive decay_votes
decayed-IsDescending [] h = tt
decayed-IsDescending (v ∷ vs) h = elim (Bool-cases (ltb 0 (v.votes - 1))) [
  | inl e ↦ rw e (decayed-le v.votes vs h.0, decayed-IsDescending vs h.1)
  | inr e ↦ rw e (decayed-IsDescending vs h.1)
]

votes_for-decayed :
    (x : Ipv4Addr) (vs : List Ipv4Vote)
    → entries_for x vs ≤ 1
    → (votes_for x (retain_positive (decay_votes vs)) ≡ votes_for x vs - 1)
      × (entries_for x (retain_positive (decay_votes vs)) ≤ entries_for x vs)
unfolding retain_positive decay_votes
votes_for-decayed x [] once = (omega arith, omega arith)
votes_for-decayed x (v ∷ vs) once =
    ground (arith, votes_for-decayed x vs (ground arith), votes_for_none x vs)

-- Decay takes one vote from every address that has one, and keeps the invariant.
pub decay_lem :
    (c : Ipv4Consensus) (x : Ipv4Addr)
    → IsConsensus c
    → IsConsensus (decay c) × (votes_for x (decay c).votes ≡ votes_for x c.votes - 1)
unfolding decay
decay_lem c x h = (
  record {
    min_limit = h.min_limit;
    max_limit = h.max_limit;
    counted = decayed-IsCounted c.max_votes c.votes h.counted;
    descending = decayed-IsDescending c.votes h.descending;
    once = λ p. omega (arith, votes_for-decayed p c.votes (h.once p), h.once p);
  },
  (votes_for-decayed x c.votes (h.once x)).0,
)

votes_for-le :
    (x : Ipv4Addr) (b : ℕ) (vs : List Ipv4Vote)
    → All (λ w. w.votes ≤ b) vs
    → entries_for x vs ≤ 1
    → votes_for x vs ≤ b
votes_for-le x b [] h once = omega arith
votes_for-le x b (v ∷ vs) h once =
    ground (arith, h.0, votes_for-le x b vs h.1 (ground arith), votes_for_none x vs)

-- The best address, if there is one, has the least number of votes that is wanted, and no address
-- has more; if there is none, every address has fewer than that number, or none.
abbrev pub IsBest : Ipv4Consensus → Ipv4Addr → Option Ipv4Addr → Type 0
IsBest c x none = votes_for x c.votes < max 1 c.min_votes
IsBest c x (some ip) =
    (max 1 c.min_votes ≤ votes_for ip c.votes) × (votes_for x c.votes ≤ votes_for ip c.votes)

first_best :
    (c : Ipv4Consensus) (x : Ipv4Addr) (v : Ipv4Vote) (vs : List Ipv4Vote)
    → IsConsensus c
    → c.votes ≡ v ∷ vs
    → (votes_for v.ip c.votes ≡ v.votes) × (votes_for x c.votes ≤ v.votes) × (1 ≤ v.votes)
first_best c x v vs h e =
    let d : IsDescending (v ∷ vs) = subst IsDescending e h.descending in
    let counted : All (IsCounted c.max_votes) (v ∷ vs) =
      subst (All (IsCounted c.max_votes)) e h.counted in
    let once : (p : Ipv4Addr) → entries_for p (v ∷ vs) ≤ 1 =
      λ p. subst (λ ws. entries_for p ws ≤ 1) e (h.once p) in
    rw e (
      ground (arith, ip4_eq_refl v.ip, once v.ip, votes_for_none v.ip vs),
      votes_for-le x v.votes (v ∷ vs) (omega arith, d.0) (once x),
      counted.0.0,
    )

best_of_lem :
    (c : Ipv4Consensus) (vs : List Ipv4Vote) (x : Ipv4Addr)
    → IsConsensus c
    → c.votes ≡ vs
    → (best : Option Ipv4Addr) × (best_of c.min_votes vs ≡ some best) × IsBest c x best
unfolding best_of
best_of_lem c [] x h e = (none, refl, rw e (omega arith))
best_of_lem c (v ∷ vs) x h e =
    let first = first_best c x v vs h e in
    let fits : ltb i32_max c.min_votes ≡ false = ground (arith, h.min_limit) in
    elim (Bool-cases (leb c.min_votes v.votes)) [
      | inl k ↦ rw (fits, k) (some v.ip, refl, ground (arith, first))
      | inr k ↦ rw (fits, k) (none, refl, ground (arith, first))
    ]

-- On votes that keep the invariant, `get_best_ipv4` does not panic. An address that it gives has the
-- votes that are wanted, one at least, and no other address has more votes; when it gives none,
-- every address has too few.
pub get_best_ipv4_lem :
    (c : Ipv4Consensus) (x : Ipv4Addr)
    → IsConsensus c
    → (best : Option Ipv4Addr) × (get_best_ipv4 c ≡ some best) × IsBest c x best
unfolding get_best_ipv4
get_best_ipv4_lem c x h = best_of_lem c c.votes x h refl
