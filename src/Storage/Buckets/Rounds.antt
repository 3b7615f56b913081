-- ===== src/Storage/Buckets/Rounds.antt =====
-- src/storage/buckets.rs: what holds between and within the rounds of `handle_bucket_overflow`.
use rustydht_lib.Prelude.{
  ℕ, suc, ◌+◌, ◌-◌, ◌≤◌, ◌<◌, ◌≡◌, refl, ◌≢◌, min, Bool, true, Option, none, some, is_some, List,
  [], ◌∷◌, ◌++◌, ◌==◌, ltb, if◌then◌else◌, length, drop, All, count_if,
}
use rustydht_lib.Common.Id.{NodeId, matching_prefix_bits}
use rustydht_lib.Storage.Vec.{bucket_at, total}
use rustydht_lib.Storage.Buckets.Moves.{Belongs}
use rustydht_lib.Storage.Buckets.{Bucketable, dest_idx, dest_idx_for_id}

-- What the list of chumps holds, if there is one.
abbrev pub chump_count {ℓ} : {T : Type ℓ} → (T → Bool) → Option (List T) → ℕ
chump_count p none = 0
chump_count p (some c) = count_if p c

pub All-drop-length {ℓ κ} :
    {T : Type ℓ} (P : T → Type κ) (xs : List T) → All P (drop (length xs) xs)
All-drop-length P [] = tt
All-drop-length P (x ∷ xs) = All-drop-length P xs

module _ {ℓ} {T : Type ℓ} ⦃b : Bucketable T⦄ (our_id : NodeId) where
  abbrev pub bits_of : T → ℕ
  bits_of x = matching_prefix_bits our_id (b.get_id x)

  pub dest_idx_lem : (n : ℕ) (x : T) → dest_idx our_id n x ≡ min (n - 1) (bits_of x)
  unfolding dest_idx dest_idx_for_id
  dest_idx_lem n x = refl

  -- The item shares all bits with our id.
  abbrev pub far : T → Bool
  far x = ltb 159 (bits_of x)

module _ {ℓ} {T : Type ℓ} ⦃b : Bucketable T⦄ (our_id : NodeId) where
  -- Between two rounds every item is in its bucket, and only the bucket that comes next may be
  -- above its capacity.
  pub record Loop (k idx : ℕ) (bs : List (List T)) : Type ℓ where
    pub placed : (j : ℕ) → All (Belongs our_id (length bs) j) (bucket_at bs j)
    pub small : (j : ℕ) → j ≢ idx → length (bucket_at bs j) ≤ k
    pub near : total (far our_id) bs ≡ 0
    pub many : length bs ≤ 161
    pub some_bucket : 1 ≤ length bs

  -- The buckets behind the moves of one round.
  pub record Sorted (k idx : ℕ) (bs bs₂ : List (List T)) : Type ℓ where
    pub placed₂ : (j : ℕ) → All (Belongs our_id (length bs₂) j) (bucket_at bs₂ j)
    pub small₂ : (j : ℕ) → j ≢ idx → j ≢ suc idx → length (bucket_at bs₂ j) ≤ k
    pub kept₂ : (p : T → Bool) → total p bs₂ ≡ total p bs
    pub many₂ : length bs₂ ≤ 161
    pub inside₂ : idx < length bs₂

module _ {ℓ} {T : Type ℓ} where
  -- What happens to the items: they stay or become chumps, and are lost only if the caller gave no
  -- list of chumps.
  pub record Conserved (bs : List (List T)) (chumps : Option (List T)) (bs' : List (List T))
      (chumps' : Option (List T)) : Type ℓ where
    pub same_list : is_some chumps' ≡ is_some chumps
    pub fewer : (p : T → Bool) → total p bs' ≤ total p bs
    pub kept :
        is_some chumps ≡ true
        → (p : T → Bool) → total p bs' + chump_count p chumps' ≡ total p bs + chump_count p chumps

  abbrev pub grown : ℕ → List (List T) → List (List T)
  grown idx bs = if idx == length bs - 1 then bs ++ [] ∷ [] else bs
