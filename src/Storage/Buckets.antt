-- ===== src/Storage/Buckets.antt =====
-- src/storage/buckets.rs: `Bucketable` and `Buckets`.
-- The head of `buckets` is bucket 0. `new` makes the first bucket, and none is removed, so
-- `buckets.len() - 1` does not underflow. `none` is a panic of an index out of range, and in
-- `handle_bucket_overflow` also fuel that ran out.
use rustydht_lib.Prelude.{
  ℕ, zero, suc, ◌+◌, ◌-◌, Ordering, compare, min, Bool, true, false, Option, none, some, is_none,
  List, [], ◌∷◌, ◌++◌, ◌||◌, not, ltb, ◌==◌, if◌then◌else◌, length, get_elem?, set, take, drop,
}
pub mod Moves
pub mod Rounds
pub mod Growing
pub mod Trimming
pub mod Overflow
pub mod Invariant
pub mod Adding
pub mod Lookup
pub mod Removal
pub mod Nearest
use mathlib.Core.Option
use rustydht_lib.Prelude.Maybe.{◌>>=◌}
use rustydht_lib.Common.Id.{NodeId, id_eq, xor, cmp_bytes, matching_prefix_bits}
use rustydht_lib.Storage.Sort.{UnstableSort}
use rustydht_lib.Storage.Vec.{swap_remove, bucket_at}

-- More rounds than there are bits in an id.
abbrev pub overflow_fuel : ℕ
overflow_fuel = 162

-- An instant is a number of ticks.
pub record Bucketable {ℓ} (T : Type ℓ) : Type ℓ where
  pub get_id : T → NodeId
  pub get_first_seen : T → ℕ

pub record Buckets {ℓ} (T : Type ℓ) : Type ℓ where
  pub our_id : NodeId
  pub buckets : List (List T)
  pub k : ℕ

-- `get_dest_bucket_idx_for_id`, for a vector of so many buckets.
unfoldable pub dest_idx_for_id : NodeId → ℕ → NodeId → ℕ
dest_idx_for_id our_id len id = min (len - 1) (matching_prefix_bits our_id id)

module _ {ℓ} {T : Type ℓ} where
  unfoldable pub new : NodeId → ℕ → Buckets T
  new our_id k = record { our_id = our_id; buckets = [] ∷ []; k = k }

  unfoldable pub clear : Buckets T → Buckets T
  clear b = record b { buckets = [] ∷ [] }

  unfoldable pub set_id : Buckets T → NodeId → Buckets T
  unfolding clear
  set_id b new_id = record (clear b) { our_id = new_id }

  unfoldable pub values_of : List (List T) → List T
  values_of [] = []
  values_of (bucket ∷ bs) = bucket ++ values_of bs

  unfoldable pub values : Buckets T → List T
  values b = values_of b.buckets

  unfoldable pub count_of : List (List T) → ℕ
  count_of [] = 0
  count_of (bucket ∷ bs) = length bucket + count_of bs

  unfoldable pub count : Buckets T → ℕ
  count b = count_of b.buckets

  unfoldable pub count_buckets : Buckets T → ℕ
  count_buckets b = length b.buckets

  unfoldable pub retain_list : (T → Bool) → List T → List T
  retain_list f [] = []
  retain_list f (x ∷ xs) = if f x then x ∷ retain_list f xs else retain_list f xs

  unfoldable pub retain_all : (T → Bool) → List (List T) → List (List T)
  retain_all f [] = []
  retain_all f (bucket ∷ bs) = retain_list f bucket ∷ retain_all f bs

  unfoldable pub retain : (T → Bool) → Buckets T → Buckets T
  retain f b = record b { buckets = retain_all f b.buckets }

  -- `chump_list.append`, if the caller gave a list.
  unfoldable pub append_chumps : Option (List T) → List T → Option (List T)
  append_chumps none remainder = none
  append_chumps (some chumps) remainder = some (chumps ++ remainder)

  -- `self.buckets[i].push(x)`
  unfoldable pub push_at : ℕ → T → List (List T) → List (List T)
  push_at i x bs = set bs i (bucket_at bs i ++ x ∷ [])

module _ {ℓ} {T : Type ℓ} ⦃b : Bucketable T⦄ where
  unfoldable pub dest_idx : NodeId → ℕ → T → ℕ
  dest_idx our_id len item = dest_idx_for_id our_id len (b.get_id item)

  unfoldable pub move_item : ℕ → ℕ → ℕ → List (List T) → Option (List (List T))
  move_item idx ideal i bs = do
    (node, rest) ← swap_remove (bucket_at bs idx) i
    some (push_at ideal node (set bs idx rest))

  -- One round of the inner `for`: the item at index i leaves a bucket where it does not belong.
  unfoldable pub move_one : NodeId → ℕ → ℕ → List (List T) → Option (List (List T))
  move_one our_id idx i bs = do
    item ← get_elem? (bucket_at bs idx) i
    let ideal = dest_idx our_id (length bs) item
    if ideal == idx then some bs else move_item idx ideal i bs

  -- `for i in (0..n).rev()`
  unfoldable pub move_out : NodeId → ℕ → ℕ → List (List T) → Option (List (List T))
  move_out our_id idx zero bs = some bs
  move_out our_id idx (suc i) bs = do bs' ← move_one our_id idx i bs; move_out our_id idx i bs'

  unfoldable pub has_id : NodeId → T → Bool
  has_id id item = id_eq (b.get_id item) id

  unfoldable pub any_has_id : NodeId → List T → Bool
  any_has_id id [] = false
  any_has_id id (x ∷ xs) = has_id id x || any_has_id id xs

  unfoldable pub dest_bucket : Buckets T → NodeId → ℕ
  dest_bucket s id = dest_idx_for_id s.our_id (length s.buckets) id

  unfoldable pub contains : Buckets T → NodeId → Bool
  contains s id = any_has_id id (bucket_at s.buckets (dest_bucket s id))

  unfoldable pub write_first : NodeId → (T → T) → List T → Option (List T)
  write_first id write [] = none
  write_first id write (x ∷ xs) =
      if has_id id x then some (write x ∷ xs) else Option.map (◌∷◌ x) (write_first id write xs)

  -- `get_mut`, and what the caller then does to the item. `none` is `None`: nothing is written.
  unfoldable pub get_mut : Buckets T → NodeId → (T → T) → Option (Buckets T)
  get_mut s id write = do
    bucket ← write_first id write (bucket_at s.buckets (dest_bucket s id))
    some (record s { buckets = set s.buckets (dest_bucket s id) bucket })

  unfoldable pub position : NodeId → List T → Option ℕ
  position id [] = none
  position id (x ∷ xs) = if has_id id x then some 0 else Option.map suc (position id xs)

  -- The item with the id, if there is one, and the buckets without it.
  unfoldable pub remove : Buckets T → NodeId → Option (T × Buckets T)
  remove s id = do
    i ← position id (bucket_at s.buckets (dest_bucket s id))
    (item, rest) ← swap_remove (bucket_at s.buckets (dest_bucket s id)) i
    some (item, record s { buckets = set s.buckets (dest_bucket s id) rest })

  unfoldable pub is_excluded : Option NodeId → T → Bool
  is_excluded none item = false
  is_excluded (some id) item = has_id id item

  -- `a_dist.partial_cmp(&b_dist).unwrap()`
  unfoldable pub distance_cmp : NodeId → T → T → Ordering
  distance_cmp id x y = cmp_bytes (xor (b.get_id x) id).bytes (xor (b.get_id y) id).bytes

  module _ (sort : UnstableSort T) where
    unfoldable pub sort_by_first_seen : List T → List T
    sort_by_first_seen = sort.sort_by (λ x y. compare (b.get_first_seen x) (b.get_first_seen y))

    -- The newest items over the capacity leave the bucket.
    unfoldable pub trim : ℕ → ℕ → List (List T) → Option (List T) → List (List T) × Option (List T)
    trim k idx bs chumps =
        let bucket = bucket_at bs idx in
        let sorted = sort_by_first_seen bucket in
        if ltb k (length bucket)
        then (set bs idx (take k sorted), append_chumps chumps (drop k sorted))
        else (bs, chumps)

    -- One round of the outer `while`.
    unfoldable pub overflow_step :
        NodeId → ℕ → ℕ → List (List T) → Option (List T) → Option (List (List T) × Option (List T))
    overflow_step our_id k idx bs chumps =
        if ltb k (length (bucket_at bs idx))
        then (do
          let bs₁ = if idx == length bs - 1 then bs ++ [] ∷ [] else bs
          bs₂ ← move_out our_id idx (length (bucket_at bs₁ idx)) bs₁
          some (trim k idx bs₂ chumps))
        else some (bs, chumps)

    -- `while bucket_index < self.buckets.len()`, on fuel.
    unfoldable pub overflow_loop :
        ℕ
        → NodeId
        → ℕ
        → ℕ
        → List (List T)
        → Option (List T)
        → Option (List (List T) × Option (List T))
    overflow_loop zero our_id k idx bs chumps = none
    overflow_loop (suc fuel) our_id k idx bs chumps = elim (ltb idx (length bs)) [
      | false ↦ some (bs, chumps)
      | true ↦ do
        (bs', chumps') ← overflow_step our_id k idx bs chumps
        overflow_loop fuel our_id k (idx + 1) bs' chumps'
    ]

    unfoldable pub handle_bucket_overflow :
        Buckets T → ℕ → Option (List T) → Option (Buckets T × Option (List T))
    handle_bucket_overflow s idx chumps = do
      (bs, chumps') ← overflow_loop overflow_fuel s.our_id s.k idx s.buckets chumps
      some (record s { buckets = bs }, chumps')

    -- The own id is never added.
    unfoldable pub add : Buckets T → T → Option (List T) → Option (Buckets T × Option (List T))
    add s item chumps =
        if id_eq (b.get_id item) s.our_id
        then some (s, chumps)
        else (let idx = dest_idx s.our_id (length s.buckets) item in
            handle_bucket_overflow (record s { buckets = push_at idx item s.buckets }) idx chumps)

    unfoldable pub get_nearest_nodes : Buckets T → NodeId → Option NodeId → List T
    get_nearest_nodes s id exclude =
        take s.k (
          sort.sort_by (distance_cmp id)
            (retain_list (λ x. not (is_excluded exclude x)) (values s)))
