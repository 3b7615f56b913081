-- ===== src/Storage/Buckets/Overflow.antt =====
-- src/storage/buckets.rs: the outer loop of `handle_bucket_overflow`.
use rustydht_lib.Prelude.{
  ℕ, zero, suc, ◌+◌, ◌-◌, ◌≤◌, ◌<◌, ◌≡◌, refl, ◌∙◌, inl, inr, Option, some, List, arith, ◌==◌, ltb,
  Bool-cases, length,
}
use native.Mathlib.Decide.{ℕ_discrete}
use rustydht_lib.Common.Id.{NodeId}
use rustydht_lib.Storage.Sort.{UnstableSort}
use rustydht_lib.Storage.Vec.{bucket_at}
use rustydht_lib.Storage.Buckets.{Bucketable, trim, overflow_step, overflow_loop}
use rustydht_lib.Storage.Buckets.Rounds.{Loop, Conserved}
use rustydht_lib.Storage.Buckets.Growing.{grow_last, keep_inner}
use rustydht_lib.Storage.Buckets.Trimming.{trim-Loop}

module _ {ℓ} {T : Type ℓ} ⦃b : Bucketable T⦄ (sort : UnstableSort T) (our_id : NodeId) where
  Conserved-refl : (bs : List (List T)) (chumps : Option (List T)) → Conserved bs chumps bs chumps
  Conserved-refl bs chumps = record {
    same_list = refl;
    fewer = λ p. omega arith;
    kept = λ h p. refl;
  }

  Conserved-trans :
      {bs bs' bs'' : List (List T)} {c c' c'' : Option (List T)}
      → Conserved bs c bs' c'
      → Conserved bs' c' bs'' c''
      → Conserved bs c bs'' c''
  Conserved-trans m m' = record {
    same_list = m'.same_list ∙ m.same_list;
    fewer = λ p. omega (arith, m.fewer p, m'.fewer p);
    kept = λ h p. m'.kept (m.same_list ∙ h) p ∙ m.kept h p;
  }

  -- One round of the outer loop.
  overflow_step-Loop :
      (k idx : ℕ) (bs : List (List T)) (chumps : Option (List T))
      → Loop our_id k idx bs
      → idx < length bs
      → (bs' : List (List T)) × (chumps' : Option (List T)) × (overflow_step sort our_id k idx bs
            chumps
          ≡ some (bs', chumps'))
        × Loop our_id k (idx + 1) bs'
        × Conserved bs chumps bs' chumps'
  unfolding overflow_step
  overflow_step-Loop k idx bs chumps l inside =
      elim (Bool-cases (ltb k (length (bucket_at bs idx)))) [
        | inr fits ↦ (
          bs,
          chumps,
          rw fits refl,
          record {
            placed = l.placed;
            small = λ j other. elim (ℕ_discrete j idx) [
              | yes here ↦ rw here (ground arith)
              | no there ↦ l.small j there
            ];
            near = l.near;
            many = l.many;
            some_bucket = l.some_bucket;
          },
          Conserved-refl bs chumps,
        )
        | inl over ↦ elim (Bool-cases (idx == length bs - 1)) [
          | inl last ↦
              let (bs₂, run, s) = grow_last our_id k idx bs l (ground arith) (ground arith) in
              (
                (trim sort k idx bs₂ chumps).0,
                (trim sort k idx bs₂ chumps).1,
                rw (over, last, run) refl,
                (trim-Loop sort our_id k idx bs bs₂ chumps s l.near).0,
                (trim-Loop sort our_id k idx bs bs₂ chumps s l.near).1,
              )
          | inr inner ↦
              let (bs₂, run, s) = keep_inner our_id k idx bs l (ground arith) in
              (
                (trim sort k idx bs₂ chumps).0,
                (trim sort k idx bs₂ chumps).1,
                rw (over, inner, run) refl,
                (trim-Loop sort our_id k idx bs bs₂ chumps s l.near).0,
                (trim-Loop sort our_id k idx bs bs₂ chumps s l.near).1,
              )
        ]
      ]

  pub overflow_loop-Loop :
      (fuel k idx : ℕ) (bs : List (List T)) (chumps : Option (List T))
      → Loop our_id k idx bs
      → 162 ≤ fuel + idx
      → 0 < fuel
      → (bs' : List (List T)) × (chumps' : Option (List T)) × (idx' : ℕ) × (overflow_loop sort fuel
            our_id k idx bs chumps
          ≡ some (bs', chumps'))
        × Loop our_id k idx' bs'
        × (length bs' ≤ idx')
        × Conserved bs chumps bs' chumps'
  unfolding overflow_loop
  overflow_loop-Loop zero k idx bs chumps l enough pos = absurd (omega arith)
  overflow_loop-Loop (suc fuel) k idx bs chumps l enough pos =
      elim (Bool-cases (ltb idx (length bs))) [
        | inr ended ↦ (
          bs,
          chumps,
          idx,
          rw (ended, overflow_loop) refl,
          l,
          ground arith,
          Conserved-refl bs chumps,
        )
        | inl inside ↦
            let (bs', chumps', run, l', m) = overflow_step-Loop k idx bs chumps l (ground arith) in
            let (bs'', chumps'', idx', runs, l'', ended, m') =
              overflow_loop-Loop fuel k (idx + 1) bs' chumps' l' (omega arith) (ground arith) in
            (
              bs'',
              chumps'',
              idx',
              rw (inside, overflow_loop, run) runs,
              l'',
              ended,
              Conserved-trans m m',
            )
      ]
