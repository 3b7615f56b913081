-- ===== src/Storage/Buckets/Moves.antt =====
-- src/storage/buckets.rs: the inner loop of `handle_bucket_overflow`.
use rustydht_lib.Prelude.{
  ℕ, zero, suc, ◌+◌, ◌≤◌, ◌<◌, ◌≡◌, refl, ◌≢◌, ◌∙◌, sym, Bool, false, inl, inr, some, List, [], ◌∷◌,
  ◌++◌, arith, ◌==◌, ==_iff, Bool-cases, if◌then◌else◌, length, get_elem?, set, length-set, drop,
  All, All-append, count_if, count_if-append,
}
use mathlib.Core.Path.{subst}
use rustydht_lib.Common.Id.{NodeId}
use rustydht_lib.Storage.Vec.{
  swap_remove, swap_remove_total, count_if-swap_remove, length-swap_remove, All-swap_remove,
  All-swap_remove_whole, All-get_elem?, bucket_at, bucket_at-set, total, total-set,
}
use rustydht_lib.Storage.Buckets.{
  Bucketable, dest_idx, dest_idx_for_id, push_at, move_item, move_one, move_out,
}

module _ {ℓ} {T : Type ℓ} where
  -- The buckets behind one push of an item that was taken out of another bucket.
  bucket_at-push :
      (idx ideal : ℕ) (x : T) (rest : List T) (bs : List (List T)) (j : ℕ)
      → idx < length bs
      → ideal < length bs
      → ideal ≢ idx
      → bucket_at (push_at ideal x (set bs idx rest)) j ≡ (
          if ideal == j
          then bucket_at bs ideal ++ x ∷ []
          else if idx == j
          then rest
          else bucket_at bs j)
  unfolding push_at
  bucket_at-push idx ideal x rest bs j h k ne = ground (
    arith,
    length-set bs idx rest,
    bucket_at-set (set bs idx rest) ideal (bucket_at (set bs idx rest) ideal ++ x ∷ []) j
        (rw (length-set bs idx rest) k),
    bucket_at-set bs idx rest ideal h,
    bucket_at-set bs idx rest j h,
  )

  total-push :
      (p : T → Bool) (idx ideal : ℕ) (x : T) (rest : List T) (bs : List (List T))
      → idx < length bs
      → ideal < length bs
      → ideal ≢ idx
      → count_if p (bucket_at bs idx) ≡ (if p x then 1 else 0) + count_if p rest
      → total p (push_at ideal x (set bs idx rest)) ≡ total p bs
  unfolding push_at
  total-push p idx ideal x rest bs h k ne e = ground (
    arith,
    total-set p (set bs idx rest) ideal (bucket_at (set bs idx rest) ideal ++ x ∷ [])
        (rw (length-set bs idx rest) k),
    total-set p bs idx rest h,
    bucket_at-set bs idx rest ideal h,
    count_if-append p (bucket_at (set bs idx rest) ideal) (x ∷ []),
  )

  length-push :
      (idx ideal : ℕ) (x : T) (rest : List T) (bs : List (List T))
      → length (push_at ideal x (set bs idx rest)) ≡ length bs
  unfolding push_at
  length-push idx ideal x rest bs =
      length-set (set bs idx rest) ideal (bucket_at (set bs idx rest) ideal ++ x ∷ [])
      ∙ length-set bs idx rest

module _ {ℓ} {T : Type ℓ} ⦃b : Bucketable T⦄ (our_id : NodeId) where
  -- The item belongs in bucket j of a vector of n buckets.
  abbrev pub Belongs : ℕ → ℕ → T → Type 0
  Belongs n j x = dest_idx our_id n x ≡ j

  pub dest_idx-lt : (n : ℕ) (x : T) → 0 < n → dest_idx our_id n x < n
  unfolding dest_idx dest_idx_for_id
  dest_idx-lt n x h = omega arith

  -- What a round or several do to the buckets: those of lower index stay, and all items are kept.
  pub record Moved (n idx i i' : ℕ) (bs bs' : List (List T)) : Type ℓ where
    pub same_length : length bs' ≡ n
    pub long : i' ≤ length (bucket_at bs' idx)
    pub kept : (p : T → Bool) → total p bs' ≡ total p bs
    pub others :
        (j : ℕ) → j ≢ idx → All (Belongs n j) (bucket_at bs j) → All (Belongs n j) (bucket_at bs' j)
    pub done :
        All (Belongs n idx) (drop i (bucket_at bs idx))
        → All (Belongs n idx) (drop i' (bucket_at bs' idx))
    pub ahead :
        All (λ x. idx ≤ dest_idx our_id n x) (bucket_at bs idx)
        → All (λ x. idx ≤ dest_idx our_id n x) (bucket_at bs' idx)
    pub lower :
        All (λ x. idx ≤ dest_idx our_id n x) (bucket_at bs idx)
        → (j : ℕ) → j < idx
        → bucket_at bs' j ≡ bucket_at bs j
    pub fixed : All (Belongs n idx) (bucket_at bs idx) → bs' ≡ bs

  push_at-Moved :
      (n idx ideal i : ℕ) (y : T) (rest : List T) (bs : List (List T))
      → length bs ≡ n
      → idx < n
      → i < length (bucket_at bs idx)
      → swap_remove (bucket_at bs idx) i ≡ some (y, rest)
      → dest_idx our_id n y ≡ ideal
      → ideal ≢ idx
      → Moved n idx (suc i) i bs (push_at ideal y (set bs idx rest))
  push_at-Moved n idx ideal i y rest bs hn hi hl e hd ne = record {
    same_length = length-push idx ideal y rest bs ∙ hn;
    long = rw here (omega (arith, length-swap_remove (bucket_at bs idx) i y rest e));
    kept = λ p.
        total-push p idx ideal y rest bs hi' inside ne
          (count_if-swap_remove p (bucket_at bs idx) i y rest e);
    others = λ j other h. elim (Bool-cases (ideal == j)) [
      | inl same ↦
          let e' : ideal ≡ j = (==_iff ideal j).0 same in
          rw (there j, same, e')
            (All-append (Belongs n j) (bucket_at bs j) (y ∷ []) h (hd ∙ e', tt))
      | inr differs ↦ rw (elsewhere j other differs) h
    ];
    done = λ h. rw here (All-swap_remove (Belongs n idx) (bucket_at bs idx) i y rest e h);
    ahead = λ h. rw here (All-swap_remove_whole _ (bucket_at bs idx) i y rest e h).1;
    lower = λ h j below.
        let above = (All-swap_remove_whole _ (bucket_at bs idx) i y rest e h).0 in
        elsewhere j (omega arith) (ground (arith, hd, above));
    fixed = λ h.
        let belongs = (All-swap_remove_whole _ (bucket_at bs idx) i y rest e h).0 in
        absurd (omega (arith, hd, belongs));
  }
    where
      hi' : idx < length bs
      hi' = omega arith

      inside : ideal < length bs
      inside = omega (arith, hd, dest_idx-lt n y (omega arith))

      there :
          (j : ℕ)
          → bucket_at (push_at ideal y (set bs idx rest)) j ≡ (
              if ideal == j
              then bucket_at bs ideal ++ y ∷ []
              else if idx == j
              then rest
              else bucket_at bs j)
      there j = bucket_at-push idx ideal y rest bs j hi' inside ne

      here : bucket_at (push_at ideal y (set bs idx rest)) idx ≡ rest
      here = ground (arith, there idx)

      elsewhere :
          (j : ℕ)
          → j ≢ idx
          → (ideal == j) ≡ false
          → bucket_at (push_at ideal y (set bs idx rest)) j ≡ bucket_at bs j
      elsewhere j other differs = ground (arith, there j)

  -- An item that belongs elsewhere is taken out and put at the end of its own bucket.
  move_item-Moved :
      (n idx ideal i : ℕ) (x : T) (bs : List (List T))
      → length bs ≡ n
      → idx < n
      → i < length (bucket_at bs idx)
      → get_elem? (bucket_at bs idx) i ≡ some x
      → dest_idx our_id n x ≡ ideal
      → ideal ≢ idx
      → (bs' : List (List T)) × (move_item idx ideal i bs ≡ some bs') × Moved n idx (suc i) i bs bs'
  unfolding move_item
  move_item-Moved n idx ideal i x bs hn hi hl got hd ne =
      let (y, rest, e, g) = swap_remove_total (bucket_at bs idx) i hl in
      let same : y ≡ x = ground (arith, g, got) in
      let belongs : dest_idx our_id n y ≡ ideal = rw same hd in
      (
        push_at ideal y (set bs idx rest),
        rw e refl,
        push_at-Moved n idx ideal i y rest bs hn hi hl e belongs ne,
      )

  -- An item that belongs in its bucket stays.
  stay-Moved :
      (n idx i : ℕ) (x : T) (bs : List (List T))
      → length bs ≡ n
      → suc i ≤ length (bucket_at bs idx)
      → get_elem? (bucket_at bs idx) i ≡ some x
      → dest_idx our_id n x ≡ idx
      → Moved n idx (suc i) i bs bs
  stay-Moved n idx i x bs hn hl got hd = record {
    same_length = hn;
    long = omega arith;
    kept = λ p. refl;
    others = λ j other h. h;
    done = λ h. All-get_elem? (Belongs n idx) (bucket_at bs idx) i x got hd h;
    ahead = λ h. h;
    lower = λ h j below. refl;
    fixed = λ h. refl;
  }

  move_one-Moved :
      (n idx i : ℕ) (bs : List (List T))
      → length bs ≡ n
      → idx < n
      → suc i ≤ length (bucket_at bs idx)
      → (bs' : List (List T)) × (move_one our_id idx i bs ≡ some bs') × Moved n idx (suc i) i bs bs'
  unfolding move_one
  move_one-Moved n idx i bs hn hi hl =
      let (x, rest, e, got) = swap_remove_total (bucket_at bs idx) i hl in
      elim (Bool-cases (dest_idx our_id n x == idx)) [
        | inl same ↦
            (bs, rw (got, hn, same) refl, stay-Moved n idx i x bs hn hl got ((==_iff _ idx).0 same))
        | inr differs ↦
            let (bs', run, moved) =
              move_item-Moved n idx (dest_idx our_id n x) i x bs hn hi hl got refl (ground arith) in
            (bs', rw (got, hn, differs) run, moved)
      ]

  Moved-trans :
      {n idx i i' i'' : ℕ} {bs bs' bs'' : List (List T)}
      → Moved n idx i i' bs bs'
      → Moved n idx i' i'' bs' bs''
      → Moved n idx i i'' bs bs''
  Moved-trans {n = n} {idx = idx} m m' = record {
    same_length = m'.same_length;
    long = m'.long;
    kept = λ p. m'.kept p ∙ m.kept p;
    others = λ j other h. m'.others j other (m.others j other h);
    done = λ h. m'.done (m.done h);
    ahead = λ h. m'.ahead (m.ahead h);
    lower = λ h j below. m'.lower (m.ahead h) j below ∙ m.lower h j below;
    fixed = λ h.
        m'.fixed (subst (λ ys. All (Belongs n idx) (bucket_at ys idx)) (sym (m.fixed h)) h)
        ∙ m.fixed h;
  }

  -- The loop over the whole bucket.
  pub move_out-Moved :
      (n idx i : ℕ) (bs : List (List T))
      → length bs ≡ n
      → idx < n
      → i ≤ length (bucket_at bs idx)
      → (bs' : List (List T)) × (move_out our_id idx i bs ≡ some bs') × Moved n idx i 0 bs bs'
  unfolding move_out
  move_out-Moved n idx zero bs hn hi hl = (
    bs,
    refl,
    record {
      same_length = hn;
      long = omega arith;
      kept = λ p. refl;
      others = λ j other h. h;
      done = λ h. h;
      ahead = λ h. h;
      lower = λ h j below. refl;
      fixed = λ h. refl;
    },
  )
  move_out-Moved n idx (suc i) bs hn hi hl =
      let (bs', run, moved) = move_one-Moved n idx i bs hn hi hl in
      let (bs'', runs, rest) = move_out-Moved n idx i bs' moved.same_length hi moved.long in
      (bs'', rw run runs, Moved-trans moved rest)
