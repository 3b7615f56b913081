-- ===== src/Storage/Buckets/Growing.antt =====
-- src/storage/buckets.rs: a round of `handle_bucket_overflow` up to the end of its moves.
use rustydht_lib.Prelude.{
  ℕ, suc, ◌≤◌, ◌<◌, ◌≡◌, refl, ◌≢◌, ap, ◌∙◌, inl, inr, some, List, [], ◌∷◌, ◌++◌, arith, ltb,
  Bool-cases, length, length-append, All, All-map, count_if,
}
use native.Mathlib.Decide.{dec_lt, ℕ_discrete}
use rustydht_lib.Common.Id.{NodeId}
use rustydht_lib.Storage.Vec.{
  bucket_at, bucket_at-snoc, bucket_at_behind, total-snoc, count_if-le-total,
}
use rustydht_lib.Storage.Buckets.Moves.{Belongs, move_out-Moved}
use rustydht_lib.Storage.Buckets.{Bucketable, dest_idx, move_out}
use rustydht_lib.Storage.Buckets.Rounds.{All-drop-length, dest_idx_lem, far, Loop, Sorted}

module _ {ℓ} {T : Type ℓ} ⦃b : Bucketable T⦄ (our_id : NodeId) where
  -- Under one more bucket, the items of the inner buckets belong where they are.
  pub placed_grown :
      (bs : List (List T)) (n idx : ℕ)
      → n ≡ suc (length bs)
      → suc idx ≡ length bs
      → ((j : ℕ) → All (Belongs our_id (length bs) j) (bucket_at bs j))
      → (j : ℕ) → j ≢ idx
      → All (Belongs our_id n j) (bucket_at bs j)
  placed_grown bs n idx hn last placed j other = elim (Bool-cases (ltb j idx)) [
    | inl below ↦
        let lt : j < idx = ground arith in
        All-map (Belongs our_id (length bs) j) (Belongs our_id n j)
          (λ x h. omega (arith, h, dest_idx_lem our_id (length bs) x, dest_idx_lem our_id n x))
          (bucket_at bs j) (placed j)
    | inr above ↦ let le : length bs ≤ j = ground arith in rw (bucket_at_behind bs j le) tt
  ]

  pub ahead_grown :
      (bs : List (List T)) (n idx : ℕ)
      → n ≡ suc (length bs)
      → suc idx ≡ length bs
      → All (Belongs our_id (length bs) idx) (bucket_at bs idx)
      → All (λ x. idx ≤ dest_idx our_id n x) (bucket_at bs idx)
  ahead_grown bs n idx hn last placed =
      All-map (Belongs our_id (length bs) idx) (λ x. idx ≤ dest_idx our_id n x)
        (λ x h. omega (arith, h, dest_idx_lem our_id (length bs) x, dest_idx_lem our_id n x))
        (bucket_at bs idx) placed

  -- The last bucket holds an item only if there are not more buckets than bits.
  pub many_grown :
      (n idx : ℕ) (xs : List T)
      → suc idx ≡ n
      → 0 < length xs
      → All (Belongs our_id n idx) xs
      → count_if (far our_id) xs ≡ 0
      → suc n ≤ 161
  many_grown n idx [] last over placed near = absurd (omega arith)
  many_grown n idx (x ∷ xs) last over placed near =
      ground (arith, dest_idx_lem our_id n x, placed.0)

  pub grow_last :
      (k idx : ℕ) (bs : List (List T))
      → Loop our_id k idx bs
      → suc idx ≡ length bs
      → k < length (bucket_at bs idx)
      → (bs₂ : List (List T)) × (move_out our_id idx
            (length (bucket_at (bs ++ [] ∷ []) idx))
            (bs ++ [] ∷ [])
          ≡ some bs₂)
        × Sorted our_id k idx bs bs₂
  grow_last k idx bs l last over =
      let (bs₂, run, m) =
        move_out-Moved our_id n idx (length (bucket_at bs₁ idx)) bs₁ refl (omega (arith, hn))
          (omega arith) in
      (
        bs₂,
        run,
        record {
          placed₂ = λ j. elim (ℕ_discrete j idx) [
            | yes here ↦ rw (m.same_length, here) (m.done (All-drop-length _ (bucket_at bs₁ idx)))
            | no other ↦ rw m.same_length (
                m.others j other
                  (rw (bucket_at-snoc bs j) (placed_grown bs n idx hn last l.placed j other)))
          ];
          small₂ = λ j other next. elim (dec_lt j idx) [
            | yes below ↦ rw (m.lower ahead j below, bucket_at-snoc bs j) (l.small j other)
            | no above ↦
                rw (bucket_at_behind bs₂ j (omega (arith, hn, m.same_length))) (omega arith)
          ];
          kept₂ = λ p. m.kept p ∙ total-snoc p bs;
          many₂ =
              let bound =
                many_grown (length bs) idx (bucket_at bs idx) last (omega arith) (l.placed idx)
                  (omega (arith, count_if-le-total (far our_id) bs idx, l.near)) in
              omega (arith, bound, hn, m.same_length);
          inside₂ = omega (arith, hn, m.same_length);
        },
      )
    where
      bs₁ : List (List T)
      bs₁ = bs ++ [] ∷ []

      n : ℕ
      n = length bs₁

      hn : n ≡ suc (length bs)
      hn = omega (arith, length-append bs ([] ∷ []))

      ahead : All (λ x. idx ≤ dest_idx our_id n x) (bucket_at bs₁ idx)
      ahead = rw (bucket_at-snoc bs idx) (ahead_grown bs n idx hn last (l.placed idx))

  pub keep_inner :
      (k idx : ℕ) (bs : List (List T))
      → Loop our_id k idx bs
      → suc idx < length bs
      → (bs₂ : List (List T)) × (move_out our_id idx (length (bucket_at bs idx)) bs ≡ some bs₂)
        × Sorted our_id k idx bs bs₂
  keep_inner k idx bs l inner =
      let (bs₂, run, m) =
        move_out-Moved our_id (length bs) idx (length (bucket_at bs idx)) bs refl (omega arith)
          (omega arith) in
      let same = m.fixed (l.placed idx) in
      (
        bs,
        run ∙ ap some same,
        record {
          placed₂ = l.placed;
          small₂ = λ j other next. l.small j other;
          kept₂ = λ p. refl;
          many₂ = l.many;
          inside₂ = omega arith;
        },
      )
