-- ===== src/Storage/Buckets/Trimming.antt =====
-- src/storage/buckets.rs: the cut to the capacity at the end of a round of
-- `handle_bucket_overflow`.
use rustydht_lib.Prelude.{
  ℕ, ◌+◌, ◌≤◌, ◌≡◌, refl, ap, ◌∙◌, Bool, true, inl, inr, Option, none, some, is_some, List, arith,
  ◌==◌, ==_iff, ltb, Bool-cases, if◌then◌else◌, length, set, length-set, length-take-le, take, drop,
  take-append-drop, All, All-take, count_if, count_if-append,
}
use mathlib.Core.List.{Permᴰ}
use native.Mathlib.Decide.{ℕ_discrete}
use rustydht_lib.Common.Id.{NodeId}
use rustydht_lib.Storage.Sort.{UnstableSort, count_if-perm, All-perm}
use rustydht_lib.Storage.Vec.{bucket_at, bucket_at-set, total, total-set}
use rustydht_lib.Storage.Buckets.Moves.{Belongs}
use rustydht_lib.Storage.Buckets.{Bucketable, append_chumps, sort_by_first_seen, trim}
use rustydht_lib.Storage.Buckets.Rounds.{chump_count, far, Loop, Conserved, Sorted}

module _ {ℓ} {T : Type ℓ} ⦃b : Bucketable T⦄ (sort : UnstableSort T) (our_id : NodeId) where
  sorted-perm : (xs : List T) → Permᴰ (sort_by_first_seen sort xs) xs
  unfolding sort_by_first_seen
  sorted-perm xs = sort.sort_by-perm _ xs

  count_if-parts :
      (p : T → Bool) (k : ℕ) (xs : List T)
      → count_if p (take k (sort_by_first_seen sort xs))
          + count_if p (drop k (sort_by_first_seen sort xs))
        ≡ count_if p xs
  count_if-parts p k xs = omega (
    arith,
    count_if-append p (take k (sort_by_first_seen sort xs)) (drop k (sort_by_first_seen sort xs)),
    ap (count_if p) (take-append-drop k (sort_by_first_seen sort xs)),
    count_if-perm p (sorted-perm xs),
  )

  chump_count-append :
      (p : T → Bool) (chumps : Option (List T)) (rest : List T)
      → is_some chumps ≡ true
      → chump_count p (append_chumps chumps rest) ≡ chump_count p chumps + count_if p rest
  unfolding append_chumps
  chump_count-append p none rest h = cc
  chump_count-append p (some c) rest h = count_if-append p c rest

  is_some-append_chumps :
      (chumps : Option (List T)) (rest : List T)
      → is_some (append_chumps chumps rest) ≡ is_some chumps
  unfolding append_chumps
  is_some-append_chumps none rest = refl
  is_some-append_chumps (some c) rest = refl

  -- The buckets and the chumps when the bucket at `idx` keeps its oldest k items.
  pub cut-Loop :
      (k idx : ℕ) (bs bs₂ : List (List T))
      → Sorted our_id k idx bs bs₂
      → total (far our_id) bs ≡ 0
      → Loop our_id k (idx + 1) (set bs₂ idx (take k (sort_by_first_seen sort (bucket_at bs₂ idx))))
  cut-Loop k idx bs bs₂ s near = record {
    placed = λ j.
        rw (same_length, at_idx j)
          (elim (Bool-cases (idx == j)) [
            | inl here ↦ rw here (rw (← (==_iff idx j).0 here) oldest)
            | inr there ↦ rw there (s.placed₂ j)
          ]);
    small = λ j other. rw (at_idx j) (elim (Bool-cases (idx == j)) [
      | inl here ↦ rw here (length-take-le k sorted)
      | inr there ↦ rw there (s.small₂ j (ground arith) (omega arith))
    ]);
    near = omega (
      arith,
      total-set (far our_id) bs₂ idx (take k sorted) s.inside₂,
      count_if-parts (far our_id) k (bucket_at bs₂ idx),
      s.kept₂ (far our_id),
    );
    many = omega (arith, same_length, s.many₂);
    some_bucket = omega (arith, same_length, s.inside₂);
  }
    where
      sorted : List T
      sorted = sort_by_first_seen sort (bucket_at bs₂ idx)

      same_length : length (set bs₂ idx (take k sorted)) ≡ length bs₂
      same_length = length-set bs₂ idx (take k sorted)

      at_idx :
          (j : ℕ)
          → bucket_at (set bs₂ idx (take k sorted)) j
            ≡ (if idx == j then take k sorted else bucket_at bs₂ j)
      at_idx j = bucket_at-set bs₂ idx (take k sorted) j s.inside₂

      oldest : All (Belongs our_id (length bs₂) idx) (take k sorted)
      oldest = All-take _ k sorted (All-perm _ (sorted-perm (bucket_at bs₂ idx)) (s.placed₂ idx))

  pub keep-Loop :
      (k idx : ℕ) (bs bs₂ : List (List T))
      → Sorted our_id k idx bs bs₂
      → total (far our_id) bs ≡ 0
      → length (bucket_at bs₂ idx) ≤ k
      → Loop our_id k (idx + 1) bs₂
  keep-Loop k idx bs bs₂ s near fits = record {
    placed = s.placed₂;
    small = λ j other. elim (ℕ_discrete j idx) [
      | yes here ↦ rw here fits
      | no there ↦ s.small₂ j there (omega arith)
    ];
    near = s.kept₂ (far our_id) ∙ near;
    many = s.many₂;
    some_bucket = omega (arith, s.inside₂);
  }

  pub trim-Loop :
      (k idx : ℕ) (bs bs₂ : List (List T)) (chumps : Option (List T))
      → Sorted our_id k idx bs bs₂
      → total (far our_id) bs ≡ 0
      → Loop our_id k (idx + 1) (trim sort k idx bs₂ chumps).0
        × Conserved bs chumps (trim sort k idx bs₂ chumps).0 (trim sort k idx bs₂ chumps).1
  unfolding trim
  trim-Loop k idx bs bs₂ chumps s near = elim (Bool-cases (ltb k (length (bucket_at bs₂ idx)))) [
    | inl over ↦ rw over (
      cut-Loop k idx bs bs₂ s near,
      record {
        same_list = is_some-append_chumps chumps _;
        fewer = λ p. omega (arith, parts p, cut p, s.kept₂ p);
        kept = λ h p.
            omega (arith, parts p, cut p, s.kept₂ p, chump_count-append p chumps (drop k sorted) h);
      },
    )
    | inr fits ↦ rw fits (
      keep-Loop k idx bs bs₂ s near (ground arith),
      record {
        same_list = refl;
        fewer = λ p. omega (arith, s.kept₂ p);
        kept = λ h p. omega (arith, s.kept₂ p);
      },
    )
  ]
    where
      sorted : List T
      sorted = sort_by_first_seen sort (bucket_at bs₂ idx)

      cut :
          (p : T → Bool)
          → total p (set bs₂ idx (take k sorted)) + count_if p (bucket_at bs₂ idx)
            ≡ total p bs₂ + count_if p (take k sorted)
      cut p = total-set p bs₂ idx (take k sorted) s.inside₂

      parts :
          (p : T → Bool)
          → count_if p (take k sorted) + count_if p (drop k sorted) ≡ count_if p (bucket_at bs₂ idx)
      parts p = count_if-parts p k (bucket_at bs₂ idx)
