-- ===== src/Storage/NodeBucketStorage/Pruning.antt =====
-- src/storage/node_bucket_storage.rs: `new`, `clear`, `set_id` and `prune`.
use rustydht_lib.Prelude.{
  ℕ, ◌+◌, ◌-◌, ◌≤◌, ◌<◌, ◌≡◌, refl, ◌∙◌, ◌⊎◌, Bool, false, ◌&&◌, ◌||◌, none, some, arith, inl, inr,
  ltb, leb, Bool-cases, Option-cases, List, [], ◌∷◌, count_if,
}
use rustydht_lib.Common.Id.{NodeId, IsId}
use rustydht_lib.Storage.Vec.{total}
use rustydht_lib.Storage.NodeWrapper.{NodeWrapper, node_wrapper_bucketable}
use rustydht_lib.Storage.Buckets.{Buckets, has_id, retain}
use rustydht_lib.Storage.Buckets
use rustydht_lib.Storage.Buckets.Invariant.{
  new-IsValid, set_id-IsValid, retain-IsValid, total-retain_all, total-retain_all-le,
}
use rustydht_lib.Storage.NodeBucketStorage.Invariant.{bad, IsPart, IsStorage}
use rustydht_lib.Storage.NodeBucketStorage.{
  NodeBucketStorage, new, set_id, verified_since, keep_unverified, checked_sub, prune,
}

-- What is left behind the two times.
abbrev pruned : NodeBucketStorage → ℕ → ℕ → NodeBucketStorage
pruned s time unverified_time = record {
  verified = retain (verified_since time) s.verified;
  unverified = retain (keep_unverified time unverified_time) s.unverified;
}

checked_sub_in_time : (now period : ℕ) → period ≤ now → checked_sub now period ≡ some (now - period)
unfolding checked_sub
checked_sub_in_time now period h = ground arith

prune_in_time :
    (s : NodeBucketStorage) (now now' grace unverified_grace : ℕ)
    → grace ≤ now
    → unverified_grace ≤ now'
    → prune s now now' grace unverified_grace ≡ pruned s (now - grace) (now' - unverified_grace)
unfolding prune
prune_in_time s now now' grace unverified_grace h h' =
    rw (prune, checked_sub_in_time now grace h, checked_sub_in_time now' unverified_grace h') refl

total-retain :
    (p f : NodeWrapper → Bool) (b : Buckets NodeWrapper)
    → total p (retain f b).buckets ≡ total (λ w. f w && p w) b.buckets
unfolding retain
total-retain p f b = total-retain_all p f b.buckets

total-retain-le :
    (p f : NodeWrapper → Bool) (b : Buckets NodeWrapper)
    → total p (retain f b).buckets ≤ total p b.buckets
unfolding retain
total-retain-le p f b = total-retain_all-le p f b.buckets

-- At `now`, `time` is no longer than `period` ago.
abbrev pub within : ℕ → ℕ → ℕ → Bool
within now period time = leb now (time + period)

abbrev pub verified_within : ℕ → ℕ → NodeWrapper → Bool
verified_within now grace w = elim w.last_verified [
  | none ↦ false
  | some last_verified ↦ within now grace last_verified
]

since_within :
    (now grace : ℕ) (w : NodeWrapper)
    → grace ≤ now
    → verified_since (now - grace) w ≡ verified_within now grace w
unfolding verified_since
since_within now grace w h = elim (Option-cases w.last_verified) [
  | inl e ↦ rw (verified_since, e) refl
  | inr (t, e) ↦ rw (verified_since, e) (ground arith)
]

keep_within :
    (now now' grace unverified_grace : ℕ) (w : NodeWrapper)
    → grace ≤ now
    → unverified_grace ≤ now'
    → keep_unverified (now - grace) (now' - unverified_grace) w ≡ (
        verified_within now grace w
        || (within now grace w.last_seen && within now' unverified_grace w.last_seen))
unfolding keep_unverified
keep_within now now' grace unverified_grace w h h' = rw (since_within now grace w h) (ground arith)

count_if-same :
    (p q : NodeWrapper → Bool) (xs : List NodeWrapper)
    → ((w : NodeWrapper) → p w ≡ q w)
    → count_if p xs ≡ count_if q xs
count_if-same p q [] h = refl
count_if-same p q (x ∷ xs) h = ground (arith, h x, count_if-same p q xs h)

total-same :
    (p q : NodeWrapper → Bool) (bs : List (List NodeWrapper))
    → ((w : NodeWrapper) → p w ≡ q w)
    → total p bs ≡ total q bs
total-same p q [] h = refl
total-same p q (b ∷ bs) h = omega (arith, count_if-same p q b h, total-same p q bs h)

module _ (our_id : NodeId) where
  new-IsPart : (k : ℕ) → IsPart our_id (Buckets.new our_id k)
  unfolding Buckets.new
  new-IsPart k = record { valid = new-IsValid our_id k; own = refl; ids = refl }

  set_id-IsPart : (b : Buckets NodeWrapper) → IsPart our_id (Buckets.set_id b our_id)
  unfolding Buckets.set_id Buckets.clear
  set_id-IsPart b = record { valid = set_id-IsValid b our_id; own = refl; ids = refl }

  retain-IsPart :
      (f : NodeWrapper → Bool) (b : Buckets NodeWrapper)
      → IsPart our_id b
      → IsPart our_id (retain f b)
  unfolding retain
  retain-IsPart f b h = record {
    valid = retain-IsValid f b h.valid;
    own = h.own;
    ids = omega (arith, total-retain_all-le bad f b.buckets, h.ids);
  }

  -- `new` makes an empty storage that is valid, and so does `set_id` for the new id.
  pub new-IsStorage :
      (k : ℕ) (s : NodeBucketStorage)
      → IsId our_id
      → IsStorage our_id (new our_id k) × IsStorage our_id (set_id s our_id)
  unfolding new set_id Buckets.new Buckets.set_id Buckets.clear
  new-IsStorage k s h = (
    record {
      is_id = h;
      verified = new-IsPart k;
      unverified = new-IsPart k;
      once = λ x. omega arith;
    },
    record {
      is_id = h;
      verified = set_id-IsPart s.verified;
      unverified = set_id-IsPart s.unverified;
      once = λ x. omega arith;
    },
  )

  pruned-IsStorage :
      (s : NodeBucketStorage) (time unverified_time : ℕ)
      → IsStorage our_id s
      → IsStorage our_id (pruned s time unverified_time)
  pruned-IsStorage s time unverified_time h = record {
    is_id = h.is_id;
    verified = retain-IsPart (verified_since time) s.verified h.verified;
    unverified = retain-IsPart (keep_unverified time unverified_time) s.unverified h.unverified;
    once = λ x. omega (
      arith,
      total-retain-le (has_id x) (verified_since time) s.verified,
      total-retain-le (has_id x) (keep_unverified time unverified_time) s.unverified,
      h.once x,
    );
  }

  -- `prune` keeps the storage valid. If the clock does not reach back over both grace periods,
  -- nothing is pruned. Otherwise a verified node stays exactly if it was verified no longer than the
  -- first period ago, and an unverified one exactly if it was verified no longer than the first
  -- period ago, or seen no longer ago than either period: of all nodes that pass any test, these stay.
  pub prune_lem :
      (s : NodeBucketStorage) (now now' grace unverified_grace : ℕ)
      → IsStorage our_id s
      → IsStorage our_id (prune s now now' grace unverified_grace)
        × (((now < grace) ⊎ (now' < unverified_grace))
              × (prune s now now' grace unverified_grace ≡ s)
            ⊎ (grace ≤ now)
              × (unverified_grace ≤ now')
              × ((p : NodeWrapper → Bool)
                  → total p (prune s now now' grace unverified_grace).verified.buckets
                    ≡ total (λ w. verified_within now grace w && p w) s.verified.buckets)
              × ((p : NodeWrapper → Bool)
                  → total p (prune s now now' grace unverified_grace).unverified.buckets
                    ≡ total
                        (λ w.
                          (verified_within now grace w
                            || (within now grace w.last_seen
                                && within now' unverified_grace w.last_seen))
                          && p w)
                        s.unverified.buckets))
  unfolding prune checked_sub
  prune_lem s now now' grace unverified_grace h = elim (Bool-cases (ltb now grace)) [
    | inl e ↦
        (rw (prune, checked_sub, e) h, inl (inl (ground arith), rw (prune, checked_sub, e) refl))
    | inr e ↦ elim (Bool-cases (ltb now' unverified_grace)) [
      | inl f ↦ (
        rw (prune, checked_sub, e, f) h,
        inl (inr (ground arith), rw (prune, checked_sub, e, f) refl),
      )
      | inr f ↦
          let reach : grace ≤ now = ground arith in
          let reach' : unverified_grace ≤ now' = ground arith in
          rw (prune_in_time s now now' grace unverified_grace reach reach') (
            pruned-IsStorage s (now - grace) (now' - unverified_grace) h,
            inr (
              reach,
              reach',
              λ p.
                  total-retain p (verified_since (now - grace)) s.verified
                  ∙ total-same _ _ s.verified.buckets
                      (λ w. rw (since_within now grace w reach) refl),
              λ p.
                  total-retain p (keep_unverified (now - grace) (now' - unverified_grace))
                    s.unverified
                  ∙ total-same _ _ s.unverified.buckets
                      (λ w. rw (keep_within now now' grace unverified_grace w reach reach') refl),
            ),
          )
    ]
  ]

  pub prune-IsStorage :
      (s : NodeBucketStorage) (now now' grace unverified_grace : ℕ)
      → IsStorage our_id s
      → IsStorage our_id (prune s now now' grace unverified_grace)
  prune-IsStorage s now now' grace unverified_grace h =
      (prune_lem s now now' grace unverified_grace h).0
