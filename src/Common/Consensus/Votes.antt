-- ===== src/Common/Consensus/Votes.antt =====
-- src/common/ipv4_addr_src.rs: the votes for an address, and the address that has most of them.
use rustydht_lib.Prelude.{
  ℕ, ◌+◌, ◌≤◌, ◌<◌, ◌≡◌, refl, ◌↔◌, inl, inr, min, true, none, some, List, [], ◌∷◌, ◌++◌, arith,
  ltb, if◌then◌else◌, Bool-cases, All, All-map, All-append,
}
use rustydht_lib.Common.Id.Distance.{bytes_eq_iff}
use rustydht_lib.Common.Net.{Ipv4Addr, octets}
use rustydht_lib.Common.Consensus.{
  i32_max, ip4_eq, Ipv4Vote, Ipv4Consensus, find_vote, raise, insert_vote, sort_votes,
}

abbrev pub IsDescending : List Ipv4Vote → Type 0
IsDescending [] = Unit
IsDescending (v ∷ vs) = All (λ w. w.votes ≤ v.votes) vs × IsDescending vs

-- The votes and the entries for an address.
abbrev pub votes_for : Ipv4Addr → List Ipv4Vote → ℕ
votes_for p [] = 0
votes_for p (v ∷ vs) = (if ip4_eq v.ip p then v.votes else 0) + votes_for p vs

abbrev pub entries_for : Ipv4Addr → List Ipv4Vote → ℕ
entries_for p [] = 0
entries_for p (v ∷ vs) = (if ip4_eq v.ip p then 1 else 0) + entries_for p vs

abbrev pub IsCounted : ℕ → Ipv4Vote → Type 0
IsCounted most v = (1 ≤ v.votes) × (v.votes ≤ most)

-- The limits are below the largest `i32`, and `max_votes` is not 0; every address has one entry at most, with a vote at
-- least, and with no more than `max_votes`, and the entries descend.
pub record IsConsensus (c : Ipv4Consensus) : Type 0 where
  pub min_limit : c.min_votes ≤ i32_max
  pub max_limit : (1 ≤ c.max_votes) × (c.max_votes < i32_max)
  pub counted : All (IsCounted c.max_votes) c.votes
  pub descending : IsDescending c.votes
  pub once : (p : Ipv4Addr) → entries_for p c.votes ≤ 1

ip4_eq_iff : (a b : Ipv4Addr) → (ip4_eq a b ≡ true) ↔ (octets a ≡ octets b)
unfolding ip4_eq
ip4_eq_iff a b = bytes_eq_iff (octets a) (octets b)

-- Entries of two equal addresses are the same.
ip4_eq_trans : (a b p : Ipv4Addr) → ip4_eq a b ≡ true → ip4_eq a p ≡ ip4_eq b p
ip4_eq_trans a b p e = ground (arith, ip4_eq_iff a b, ip4_eq_iff a p, ip4_eq_iff b p)

pub ip4_eq_refl : (a : Ipv4Addr) → ip4_eq a a ≡ true
ip4_eq_refl a = (ip4_eq_iff a a).1 refl

-- Two equal addresses are equal to the same ones.
pub ip4_eq-same : (a b q : Ipv4Addr) → ip4_eq a b ≡ true → ip4_eq q a ≡ ip4_eq q b
ip4_eq-same a b q e = ground (arith, ip4_eq_iff a b, ip4_eq_iff q a, ip4_eq_iff q b)

votes_for-insert_vote :
    (p : Ipv4Addr) (v : Ipv4Vote) (vs : List Ipv4Vote)
    → (votes_for p (insert_vote v vs) ≡ votes_for p (v ∷ vs))
      × (entries_for p (insert_vote v vs) ≡ entries_for p (v ∷ vs))
unfolding insert_vote
votes_for-insert_vote p v [] = (refl, refl)
votes_for-insert_vote p v (w ∷ ws) = ground (arith, votes_for-insert_vote p v ws)

pub votes_for-sort_votes :
    (p : Ipv4Addr) (vs : List Ipv4Vote)
    → (votes_for p (sort_votes vs) ≡ votes_for p vs)
      × (entries_for p (sort_votes vs) ≡ entries_for p vs)
unfolding sort_votes
votes_for-sort_votes p [] = (refl, refl)
votes_for-sort_votes p (v ∷ vs) =
    ground (arith, votes_for-insert_vote p v (sort_votes vs), votes_for-sort_votes p vs)

module _ {κ} (P : Ipv4Vote → Type κ) where
  All-insert_vote : (v : Ipv4Vote) (vs : List Ipv4Vote) → P v → All P vs → All P (insert_vote v vs)
  unfolding insert_vote
  All-insert_vote v [] h hs = (h, tt)
  All-insert_vote v (w ∷ ws) h hs = elim (Bool-cases (ltb v.votes w.votes)) [
    | inl e ↦ rw e (hs.0, All-insert_vote v ws h hs.1)
    | inr e ↦ rw e (h, hs)
  ]

  pub All-sort_votes : (vs : List Ipv4Vote) → All P vs → All P (sort_votes vs)
  unfolding sort_votes
  All-sort_votes [] h = tt
  All-sort_votes (v ∷ vs) h = All-insert_vote v (sort_votes vs) h.0 (All-sort_votes vs h.1)

insert_vote-IsDescending :
    (v : Ipv4Vote) (vs : List Ipv4Vote) → IsDescending vs → IsDescending (insert_vote v vs)
unfolding insert_vote
insert_vote-IsDescending v [] h = (tt, tt)
insert_vote-IsDescending v (w ∷ ws) h = elim (Bool-cases (ltb v.votes w.votes)) [
  | inl e ↦ rw e (
    All-insert_vote (λ z. z.votes ≤ w.votes) v ws (ground arith) h.0,
    insert_vote-IsDescending v ws h.1,
  )
  | inr e ↦
      let below : w.votes ≤ v.votes = ground arith in
      rw e ((below, All-map _ (λ z. z.votes ≤ v.votes) (λ z k. omega arith) ws h.0), h)
]

pub sort_votes-IsDescending : (vs : List Ipv4Vote) → IsDescending (sort_votes vs)
unfolding sort_votes
sort_votes-IsDescending [] = tt
sort_votes-IsDescending (v ∷ vs) =
    insert_vote-IsDescending v (sort_votes vs) (sort_votes-IsDescending vs)

pub votes_for_none : (p : Ipv4Addr) (vs : List Ipv4Vote) → entries_for p vs ≡ 0 → votes_for p vs ≡ 0
votes_for_none p [] h = refl
votes_for_none p (v ∷ vs) h = ground (arith, votes_for_none p vs (ground arith))

pub find_vote-none :
    (p : Ipv4Addr) (vs : List Ipv4Vote) → find_vote p vs ≡ none → entries_for p vs ≡ 0
unfolding find_vote
find_vote-none p [] h = refl
find_vote-none p (v ∷ vs) h = elim (Bool-cases (ip4_eq v.ip p)) [
  | inl e ↦ absurd (ground (arith, e, h))
  | inr e ↦ ground (arith, e, find_vote-none p vs (ground (arith, e, h)))
]

-- With one entry at most, the first one has all votes.
pub find_vote-some :
    (p : Ipv4Addr) (vs : List Ipv4Vote) (n : ℕ)
    → find_vote p vs ≡ some n
    → entries_for p vs ≤ 1
    → votes_for p vs ≡ n
unfolding find_vote
find_vote-some p [] n h once = cc
find_vote-some p (v ∷ vs) n h once = elim (Bool-cases (ip4_eq v.ip p)) [
  | inl e ↦ ground (arith, e, h, votes_for_none p vs (ground (arith, e)))
  | inr e ↦ ground (arith, e, find_vote-some p vs n (ground (arith, e, h)) (ground (arith, e)))
]

-- What the entry found gains is what the votes for its address gain.
pub votes_for-raise :
    (most : ℕ) (p x : Ipv4Addr) (vs : List Ipv4Vote) (n : ℕ)
    → find_vote p vs ≡ some n
    → (votes_for x (raise most p vs) + (if ip4_eq p x then n else 0)
        ≡ votes_for x vs + (if ip4_eq p x then min most (n + 1) else 0))
      × (entries_for x (raise most p vs) ≡ entries_for x vs)
unfolding find_vote raise
votes_for-raise most p x [] n h = cc
votes_for-raise most p x (v ∷ vs) n h = elim (Bool-cases (ip4_eq v.ip p)) [
  | inl e ↦ ground (arith, e, h, ip4_eq_trans v.ip p x e)
  | inr e ↦ ground (arith, e, h, votes_for-raise most p x vs n (ground (arith, e, h)))
]

pub raise-IsCounted :
    (most : ℕ) (p : Ipv4Addr) (vs : List Ipv4Vote)
    → 1 ≤ most
    → All (IsCounted most) vs
    → All (IsCounted most) (raise most p vs)
unfolding raise
raise-IsCounted most p [] h hs = tt
raise-IsCounted most p (v ∷ vs) h hs = elim (Bool-cases (ip4_eq v.ip p)) [
  | inl e ↦ rw e ((omega arith, omega arith), hs.1)
  | inr e ↦ rw e (hs.0, raise-IsCounted most p vs h hs.1)
]

pub snoc-IsDescending :
    (vs : List Ipv4Vote) (w : Ipv4Vote)
    → IsDescending vs
    → All (λ v. w.votes ≤ v.votes) vs
    → IsDescending (vs ++ w ∷ [])
snoc-IsDescending [] w h k = (tt, tt)
snoc-IsDescending (v ∷ vs) w h k =
    (All-append _ vs (w ∷ []) h.0 (k.0, tt), snoc-IsDescending vs w h.1 k.1)

pub votes_for-append :
    (p : Ipv4Addr) (vs : List Ipv4Vote) (w : Ipv4Vote)
    → (votes_for p (vs ++ w ∷ []) ≡ votes_for p vs + votes_for p (w ∷ []))
      × (entries_for p (vs ++ w ∷ []) ≡ entries_for p vs + entries_for p (w ∷ []))
votes_for-append p [] w = (omega arith, omega arith)
votes_for-append p (v ∷ vs) w = ground (arith, votes_for-append p vs w)
