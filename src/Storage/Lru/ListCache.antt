-- ===== src/Storage/Lru/ListCache.antt =====
-- A cache that is a list of entries, the one used last in front: the laws of the lru crate's cache
-- can be met.
use mathlib.Core.Path.{subst}
use mathlib.Core.Option.{some_inj}
use rustydht_lib.Prelude.{
  ℕ, zero, suc, ◌≤◌, ◌≡◌, refl, ap, ◌∙◌, ◌⊎◌, inl, inr, Bool, true, false, Option, none, some, List,
  [], ◌∷◌, arith, if◌then◌else◌, Bool-cases, Option-cases, count_if, take, ltb, ◌<◌, is_none,
  length, length-take-le,
}
use rustydht_lib.Storage.Lru.{Lru, lookup}

module _ (K V : Type 0) (eq : K → K → Bool) where
  pub record ListCache : Type 0 where
    limit : ℕ
    entries : List (K × V)
    small : length entries ≤ limit
    once : (k : K) → count_if (λ e. eq e.0 k) entries ≤ 1

module _ {K : Type 0} (eq : K → K → Bool) (eq_refl : (a : K) → eq a a ≡ true)
    (same : (a b q : K) → eq a b ≡ true → eq a q ≡ eq b q) where
  -- A key that is equal to k is not equal to one that differs from k.
  apart : (a k j : K) → eq a k ≡ false → eq k j ≡ true → eq a j ≡ false
  apart a k j h e = ground (arith, h, e, same a j a, same k j a, same k a k, eq_refl a, eq_refl k)

module _ {K V : Type 0} (eq : K → K → Bool) where
  abbrev keys : K → List (K × V) → ℕ
  keys k es = count_if (λ e. eq e.0 k) es

  abbrev forget : K → List (K × V) → List (K × V)
  forget k [] = []
  forget k (e ∷ es) = if eq e.0 k then forget k es else e ∷ forget k es

  take-all : (n : ℕ) (es : List (K × V)) → length es ≤ n → take n es ≡ es
  take-all zero [] h = refl
  take-all zero (e ∷ es) h = absurd (omega arith)
  take-all (suc n) [] h = refl
  take-all (suc n) (e ∷ es) h = ap (◌∷◌ e) (take-all n es (omega arith))

  forget-length : (k : K) (es : List (K × V)) → length (forget k es) ≤ length es
  forget-length k [] = omega arith
  forget-length k (e ∷ es) = ground (arith, forget-length k es)

  pub lookup-take :
      (j : K) (n : ℕ) (es : List (K × V))
      → ((lookup eq j (take n es) ≡ none) ⊎ (lookup eq j (take n es) ≡ lookup eq j es))
        × (keys j (take n es) ≤ keys j es)
  lookup-take j zero es = (inl refl, omega arith)
  lookup-take j (suc n) [] = (inl refl, omega arith)
  lookup-take j (suc n) (e ∷ es) = elim (Bool-cases (eq e.0 j)) [
    | inl h ↦ rw h (inr refl, omega (arith, (lookup-take j n es).1))
    | inr h ↦ rw h ((lookup-take j n es).0, omega (arith, (lookup-take j n es).1))
  ]

  module _ (eq_refl : (a : K) → eq a a ≡ true)
      (same : (a b q : K) → eq a b ≡ true → eq a q ≡ eq b q) where
    lookup-forget :
        (j k : K) (es : List (K × V))
        → (lookup eq j (forget k es) ≡ (if eq k j then none else lookup eq j es))
          × (keys j (forget k es) ≡ (if eq k j then 0 else keys j es))
    lookup-forget j k [] = (ground arith, ground arith)
    lookup-forget j k (e ∷ es) = elim (Bool-cases (eq e.0 k)) [
      | inl h ↦ rw h (
        ground (arith, lookup-forget j k es, same e.0 k j h),
        ground (arith, lookup-forget j k es, same e.0 k j h),
      )
      | inr h ↦ rw h (
        ground (arith, lookup-forget j k es, h, apart eq eq_refl same e.0 k j h),
        ground (arith, lookup-forget j k es, h, apart eq eq_refl same e.0 k j h),
      )
    ]

    -- The entry in front, and the others.
    abbrev front : K → V → List (K × V) → List (K × V)
    front k v es = (k, v) ∷ forget k es

    pub lookup-front :
        (j k : K) (v : V) (es : List (K × V))
        → keys j es ≤ 1
        → (lookup eq j (front k v es) ≡ (if eq k j then some v else lookup eq j es))
          × (keys j (front k v es) ≤ 1)
    lookup-front j k v es h = elim (Bool-cases (eq k j)) [
      | inl e ↦ rw e (refl, ground (arith, lookup-forget j k es, e))
      | inr e ↦
          rw e (ground (arith, lookup-forget j k es, e), ground (arith, lookup-forget j k es, e))
    ]

    abbrev put : ListCache K V eq → K → V → ListCache K V eq
    put c k v = record c {
      entries = take c.limit (front k v c.entries);
      small = length-take-le c.limit (front k v c.entries);
      once = λ j. omega (
        arith,
        (lookup-take j c.limit (front k v c.entries)).1,
        (lookup-front j k v c.entries (c.once j)).1,
      );
    }

    -- Nothing is cut off when a key that is there comes to the front.
    front-length :
        (k : K) (v w : V) (es : List (K × V))
        → lookup eq k es ≡ some w
        → length (front k v es) ≤ length es
    front-length k v w [] h = absurd (ground (arith, h))
    front-length k v w (e ∷ es) h = elim (Bool-cases (eq e.0 k)) [
      | inl there ↦ rw there (omega (arith, forget-length k es))
      | inr later ↦ rw later (omega (arith, front-length k v w es (ground (arith, h, later))))
    ]

    put_known :
        (c : ListCache K V eq) (k : K) (v w : V)
        → lookup eq k c.entries ≡ some w
        → (put c k v).entries ≡ front k v c.entries
    put_known c k v w h =
        take-all c.limit (front k v c.entries)
          (omega (arith, front-length k v w c.entries h, c.small))

    put_room :
        (c : ListCache K V eq) (k : K) (v : V)
        → length c.entries < c.limit
        → (put c k v).entries ≡ front k v c.entries
    put_room c k v h =
        take-all c.limit (front k v c.entries) (omega (arith, forget-length k c.entries, h))

    abbrev got : ListCache K V eq → K → Option V → Option V × ListCache K V eq
    got c k none = (none, c)
    got c k (some v) = (some v, put c k v)

    abbrev get : ListCache K V eq → K → Option V × ListCache K V eq
    get c k = got c k (lookup eq k c.entries)

    abbrev written : ListCache K V eq → K → (V → V) → Option V → Option (ListCache K V eq)
    written c k f none = none
    written c k f (some v) = some (put c k (f v))

    abbrev get_mut : ListCache K V eq → K → (V → V) → Option (ListCache K V eq)
    get_mut c k f = written c k f (lookup eq k c.entries)

    take-front :
        (n : ℕ) (k j : K) (v : V) (es : List (K × V))
        → 1 ≤ n
        → eq k j ≡ true
        → lookup eq j (take n (front k v es)) ≡ some v
    take-front zero k j v es h e = absurd (omega arith)
    take-front (suc n) k j v es h e = rw e refl

    -- Equal keys have the same value.
    lookup_eq : (k j : K) (es : List (K × V)) → eq k j ≡ true → lookup eq j es ≡ lookup eq k es
    lookup_eq k j [] h = refl
    lookup_eq k j (e ∷ es) h = ground (
      arith,
      lookup_eq k j es h,
      same k j e.0 h,
      same e.0 k j,
      same e.0 j k,
      same k j k h,
      eq_refl k,
    )

    pub got_value : (c : ListCache K V eq) (k : K) (o : Option V) → (got c k o).0 ≡ o
    got_value c k none = refl
    got_value c k (some v) = refl

    pub got_keeps :
        (c : ListCache K V eq) (k j : K) (o : Option V)
        → lookup eq k c.entries ≡ o
        → (lookup eq j (got c k o).1.entries ≡ lookup eq j c.entries)
          × ((got c k o).1.limit ≡ c.limit)
    got_keeps c k j none e = (refl, refl)
    got_keeps c k j (some v) e = (
      ap (lookup eq j) (put_known c k v v e)
          ∙ (lookup-front j k v c.entries (c.once j)).0
          ∙ ground (arith, lookup_eq k j c.entries, e),
      refl,
    )

    pub written-none :
        (c : ListCache K V eq) (k : K) (f : V → V) (o : Option V)
        → is_none (written c k f o) ≡ is_none o
    written-none c k f none = refl
    written-none c k f (some v) = refl

    pub written-some :
        (c c' : ListCache K V eq) (k j : K) (f : V → V) (v : V) (o : Option V)
        → lookup eq k c.entries ≡ o
        → written c k f o ≡ some c'
        → o ≡ some v
        → (lookup eq j c'.entries ≡ (if eq k j then some (f v) else lookup eq j c.entries))
          × (c'.limit ≡ c.limit)
    written-some c c' k j f v none there e h = absurd (ground (arith, e))
    written-some c c' k j f v (some w) there e h =
        let at : w ≡ v = ground (arith, h) in
        let is : put c k (f w) ≡ c' = some_inj.0 e in
        subst
          (λ z.
            (lookup eq j z.entries ≡ (if eq k j then some (f v) else lookup eq j c.entries))
            × (z.limit ≡ c.limit))
          is
          (
            ap (lookup eq j) (put_known c k (f w) w there)
                ∙ (lookup-front j k (f w) c.entries (c.once j)).0
                ∙ ap (λ z. if eq k j then some (f z) else lookup eq j c.entries) at,
            refl,
          )

    pub put_own :
        (c : ListCache K V eq) (k j : K) (v : V)
        → 1 ≤ c.limit
        → eq k j ≡ true
        → lookup eq j (put c k v).entries ≡ some v
    put_own c k j v h e = take-front c.limit k j v c.entries h e

    pub put_other :
        (c : ListCache K V eq) (k j : K) (v : V)
        → eq k j ≡ false
        → (lookup eq j (put c k v).entries ≡ lookup eq j c.entries)
          ⊎ (lookup eq j (put c k v).entries ≡ none)
            × (lookup eq k c.entries ≡ none)
            × (length c.entries ≡ c.limit)
    put_other c k j v e =
        let in_front : lookup eq j (front k v c.entries) ≡ lookup eq j c.entries =
          (lookup-front j k v c.entries (c.once j)).0 ∙ rw e refl in
        elim (Option-cases (lookup eq k c.entries)) [
          | inr (w, there) ↦ inl (ap (lookup eq j) (put_known c k v w there) ∙ in_front)
          | inl absent ↦ elim (Bool-cases (ltb (length c.entries) c.limit)) [
            | inl room ↦ inl (ap (lookup eq j) (put_room c k v (ground (arith, room))) ∙ in_front)
            | inr full ↦ elim (lookup-take j c.limit (front k v c.entries)).0 [
              | inl gone ↦ inr (gone, absent, ground (arith, full, c.small))
              | inr kept ↦ inl (kept ∙ in_front)
            ]
          ]
        ]

    -- The laws hold.
    unfoldable pub list_lru : Lru K V eq
    list_lru = record {
      Cache = ListCache K V eq;
      new = λ n. record { limit = n; entries = []; small = omega arith; once = λ k. omega arith };
      cap = λ c. c.limit;
      iter = λ c. c.entries;
      get = get;
      put = put;
      get_mut = get_mut;
      iter-new = λ n. refl;
      cap-new = λ n. refl;
      get-value = λ c k. got_value c k (lookup eq k c.entries);
      get-keeps = λ c k j. got_keeps c k j (lookup eq k c.entries) refl;
      put-own = put_own;
      put-other = put_other;
      cap-put = λ c k v. refl;
      get_mut-none = λ c k f. written-none c k f (lookup eq k c.entries);
      get_mut-some = λ c c' k j f v. written-some c c' k j f v (lookup eq k c.entries) refl;
      iter-cap = λ c. c.small;
      once = λ c. c.once;
    }
