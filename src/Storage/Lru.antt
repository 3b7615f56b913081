-- ===== src/Storage/Lru.antt =====
-- The cache of the lru crate, as src/storage/peer_storage.rs uses it: operations, and the laws that
-- the crate documents for them. A cache holds a value for each of some keys, `iter` lists them, and
-- only `put` drops any other key's value. `get` writes the order of the keys.
pub mod ListCache
use rustydht_lib.Prelude.{
  ℕ, ◌≤◌, ◌≡◌, ◌⊎◌, Bool, true, false, Option, none, some, List, [], ◌∷◌, if◌then◌else◌, count_if,
  is_none, length,
}

-- The value of the first entry for a key.
abbrev pub lookup {ℓ} : {K : Type ℓ} {V : Type ℓ} → (K → K → Bool) → K → List (K × V) → Option V
lookup eq k [] = none
lookup eq k (e ∷ es) = if eq e.0 k then some e.1 else lookup eq k es

pub record Lru (K V : Type 0) (eq : K → K → Bool) : Type 1 where
  pub Cache : Type 0
  pub new : ℕ → Cache
  pub cap : Cache → ℕ
  pub iter : Cache → List (K × V)
  pub get : Cache → K → Option V × Cache
  pub put : Cache → K → V → Cache
  -- `get_mut`, and a write through the reference that it gives.
  pub get_mut : Cache → K → (V → V) → Option Cache
  pub iter-new : (n : ℕ) → iter (new n) ≡ []
  pub cap-new : (n : ℕ) → cap (new n) ≡ n
  pub get-value : (c : Cache) (k : K) → (get c k).0 ≡ lookup eq k (iter c)
  pub get-keeps :
      (c : Cache) (k j : K)
      → (lookup eq j (iter (get c k).1) ≡ lookup eq j (iter c)) × (cap (get c k).1 ≡ cap c)
  pub put-own :
      (c : Cache) (k j : K) (v : V)
      → 1 ≤ cap c
      → eq k j ≡ true
      → lookup eq j (iter (put c k v)) ≡ some v
  -- Another key is dropped only for a new key in a full cache.
  pub put-other :
      (c : Cache) (k j : K) (v : V)
      → eq k j ≡ false
      → (lookup eq j (iter (put c k v)) ≡ lookup eq j (iter c))
        ⊎ (lookup eq j (iter (put c k v)) ≡ none)
          × (lookup eq k (iter c) ≡ none)
          × (length (iter c) ≡ cap c)
  pub cap-put : (c : Cache) (k : K) (v : V) → cap (put c k v) ≡ cap c
  pub get_mut-none :
      (c : Cache) (k : K) (f : V → V) → is_none (get_mut c k f) ≡ is_none (lookup eq k (iter c))
  pub get_mut-some :
      (c c' : Cache) (k j : K) (f : V → V) (v : V)
      → get_mut c k f ≡ some c'
      → lookup eq k (iter c) ≡ some v
      → (lookup eq j (iter c') ≡ (if eq k j then some (f v) else lookup eq j (iter c)))
        × (cap c' ≡ cap c)
  pub iter-cap : (c : Cache) → length (iter c) ≤ cap c
  -- No key has two entries.
  pub once : (c : Cache) (k : K) → count_if (λ e. eq e.0 k) (iter c) ≤ 1
