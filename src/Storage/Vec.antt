-- ===== src/Storage/Vec.antt =====
-- What the storage takes from Rust's `Vec`: `swap_remove`, and a vector of vectors that is read
-- and written by the index of the inner one.
use rustydht_lib.Prelude.{
  ℕ, zero, suc, ◌+◌, ◌≤◌, ◌<◌, ◌≡◌, refl, Bool, true, Option, none, some, List, [], ◌∷◌, ◌++◌,
  arith, ◌==◌, if◌then◌else◌, length, get_elem?, get_or, set, drop, All, count_if, count_if-all,
}
use rustydht_lib.Prelude.Maybe.{◌>>=◌, >>=-eq-some}

module _ {ℓ} {T : Type ℓ} where
  insert_second : T → List T → List T
  insert_second x [] = x ∷ []
  insert_second x (z ∷ zs) = z ∷ x ∷ zs

  -- The last element in front of the others.
  last_first : List T → List T
  unfolding insert_second
  last_first [] = []
  last_first (x ∷ xs) = insert_second x (last_first xs)

  -- `swap_remove(i)`: the element, and the vector with the last element in its place. `none` is
  -- the panic of an index out of range.
  unfoldable pub swap_remove : List T → ℕ → Option (T × List T)
  unfolding last_first
  swap_remove [] i = none
  swap_remove (x ∷ xs) zero = some (x, last_first xs)
  swap_remove (x ∷ xs) (suc i) = do (y, rest) ← swap_remove xs i; some (y, x ∷ rest)

  pub swap_remove_total :
      (xs : List T) (i : ℕ)
      → i < length xs
      → (x : T) × (rest : List T) × (swap_remove xs i ≡ some (x, rest)) × (get_elem? xs i ≡ some x)
  unfolding swap_remove
  swap_remove_total [] i h = elim h [ ]
  swap_remove_total (x ∷ xs) zero h = (x, last_first xs, refl, refl)
  swap_remove_total (x ∷ xs) (suc i) h =
      let (y, rest, e, g) = swap_remove_total xs i (omega arith) in (y, x ∷ rest, rw e refl, g)

  count_if-last_first : (p : T → Bool) (xs : List T) → count_if p (last_first xs) ≡ count_if p xs
  unfolding last_first
  count_if-last_first p [] = refl
  count_if-last_first p (x ∷ xs) = second (last_first xs) (count_if-last_first p xs)
    where
      second :
          (zs : List T)
          → count_if p zs ≡ count_if p xs
          → count_if p (insert_second x zs) ≡ count_if p (x ∷ xs)
      second [] e = omega arith
      second (z ∷ zs) e = omega arith

  -- Nothing is lost: what stays and the element that is taken out are the elements.
  pub count_if-swap_remove :
      (p : T → Bool) (xs : List T) (i : ℕ) (x : T) (rest : List T)
      → swap_remove xs i ≡ some (x, rest)
      → count_if p xs ≡ (if p x then 1 else 0) + count_if p rest
  unfolding swap_remove
  count_if-swap_remove p [] i x rest e = cc
  count_if-swap_remove p (z ∷ xs) zero x rest e = ground (arith, count_if-last_first p xs)
  count_if-swap_remove p (z ∷ xs) (suc i) x rest e =
      let (yr, found, same) = >>=-eq-some (swap_remove xs i) _ e in
      ground (arith, same, count_if-swap_remove p xs i yr.0 yr.1 found)

  pub length-swap_remove :
      (xs : List T) (i : ℕ) (x : T) (rest : List T)
      → swap_remove xs i ≡ some (x, rest)
      → suc (length rest) ≡ length xs
  length-swap_remove xs i x rest e = omega (
    arith,
    count_if-swap_remove (λ _. true) xs i x rest e,
    count_if-all {ℓ} xs,
    count_if-all {ℓ} rest,
  )

  All-last_first {κ} : (P : T → Type κ) (xs : List T) → All P xs → All P (last_first xs)
  unfolding last_first
  All-last_first P [] h = tt
  All-last_first P (x ∷ xs) h = second (last_first xs) (All-last_first P xs h.1)
    where
      second : (zs : List T) → All P zs → All P (insert_second x zs)
      second [] k = (h.0, tt)
      second (z ∷ zs) k = (k.0, (h.0, k.1))

  -- The element that takes the place comes from behind the place.
  pub All-swap_remove {κ} :
      (P : T → Type κ) (xs : List T) (i : ℕ) (x : T) (rest : List T)
      → swap_remove xs i ≡ some (x, rest)
      → All P (drop (suc i) xs)
      → All P (drop i rest)
  unfolding swap_remove
  All-swap_remove P [] i x rest e h = cc
  All-swap_remove P (z ∷ xs) zero x rest e h =
      let same : last_first xs ≡ rest = ground arith in rw (← same) (All-last_first P xs h)
  All-swap_remove P (z ∷ xs) (suc i) x rest e h =
      let (yr, found, same) = >>=-eq-some (swap_remove xs i) _ e in
      let tail : z ∷ yr.1 ≡ rest = ground (arith, same) in
      rw (← tail) (All-swap_remove P xs i yr.0 yr.1 found h)

  pub All-swap_remove_whole {κ} :
      (P : T → Type κ) (xs : List T) (i : ℕ) (x : T) (rest : List T)
      → swap_remove xs i ≡ some (x, rest)
      → All P xs
      → P x × All P rest
  unfolding swap_remove
  All-swap_remove_whole P [] i x rest e h = cc
  All-swap_remove_whole P (z ∷ xs) zero x rest e h =
      let same : last_first xs ≡ rest = ground arith in
      let first : z ≡ x = ground arith in (rw (← first) h.0, rw (← same) (All-last_first P xs h.1))
  All-swap_remove_whole P (z ∷ xs) (suc i) x rest e h =
      let (yr, found, same) = >>=-eq-some (swap_remove xs i) _ e in
      let tail : z ∷ yr.1 ≡ rest = ground (arith, same) in
      let first : yr.0 ≡ x = ground (arith, same) in
      let whole = All-swap_remove_whole P xs i yr.0 yr.1 found h.1 in
      (rw (← first) whole.0, rw (← tail) (h.0, whole.1))

  pub All-get_elem? {κ} :
      (P : T → Type κ) (xs : List T) (i : ℕ) (x : T)
      → get_elem? xs i ≡ some x
      → P x
      → All P (drop (suc i) xs)
      → All P (drop i xs)
  All-get_elem? P [] i x e h k = cc
  All-get_elem? P (z ∷ xs) zero x e h k = let same : z ≡ x = ground arith in (rw same h, k)
  All-get_elem? P (z ∷ xs) (suc i) x e h k = All-get_elem? P xs i x e h k

  -- The bucket at an index of a vector of buckets; empty behind the end.
  abbrev pub bucket_at : List (List T) → ℕ → List T
  bucket_at bs j = get_or bs j []

  pub bucket_at-set :
      (bs : List (List T)) (i : ℕ) (b : List T) (j : ℕ)
      → i < length bs
      → bucket_at (set bs i b) j ≡ (if i == j then b else bucket_at bs j)
  bucket_at-set [] i b j h = elim h [ ]
  bucket_at-set (x ∷ bs) zero b zero h = refl
  bucket_at-set (x ∷ bs) zero b (suc j) h = ground arith
  bucket_at-set (x ∷ bs) (suc i) b zero h = ground arith
  bucket_at-set (x ∷ bs) (suc i) b (suc j) h = ground (arith, bucket_at-set bs i b j (omega arith))

  pub bucket_at-snoc : (bs : List (List T)) (j : ℕ) → bucket_at (bs ++ [] ∷ []) j ≡ bucket_at bs j
  bucket_at-snoc [] zero = refl
  bucket_at-snoc [] (suc j) = refl
  bucket_at-snoc (x ∷ bs) zero = refl
  bucket_at-snoc (x ∷ bs) (suc j) = bucket_at-snoc bs j

  pub bucket_at_behind : (bs : List (List T)) (j : ℕ) → length bs ≤ j → bucket_at bs j ≡ []
  bucket_at_behind [] j h = refl
  bucket_at_behind (x ∷ bs) zero h = absurd (omega arith)
  bucket_at_behind (x ∷ bs) (suc j) h = bucket_at_behind bs j (omega arith)

  -- How many elements of all the buckets pass a test.
  abbrev pub total : (T → Bool) → List (List T) → ℕ
  total p [] = 0
  total p (b ∷ bs) = count_if p b + total p bs

  pub total-set :
      (p : T → Bool) (bs : List (List T)) (i : ℕ) (b : List T)
      → i < length bs
      → total p (set bs i b) + count_if p (bucket_at bs i) ≡ total p bs + count_if p b
  total-set p [] i b h = elim h [ ]
  total-set p (x ∷ bs) zero b h = omega arith
  total-set p (x ∷ bs) (suc i) b h = omega (arith, total-set p bs i b (omega arith))

  pub total-snoc : (p : T → Bool) (bs : List (List T)) → total p (bs ++ [] ∷ []) ≡ total p bs
  total-snoc p [] = refl
  total-snoc p (x ∷ bs) = omega (arith, total-snoc p bs)

  pub count_if-le-total :
      (p : T → Bool) (bs : List (List T)) (j : ℕ) → count_if p (bucket_at bs j) ≤ total p bs
  count_if-le-total p [] j = omega arith
  count_if-le-total p (x ∷ bs) zero = omega arith
  count_if-le-total p (x ∷ bs) (suc j) = omega (arith, count_if-le-total p bs j)
