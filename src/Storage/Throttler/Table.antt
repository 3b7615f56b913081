-- ===== src/Storage/Throttler/Table.antt =====
-- src/storage/throttler.rs: the table as a map from addresses to records.
use rustydht_lib.Prelude.{
  ℕ, zero, suc, ◌+◌, ◌≤◌, ◌≡◌, refl, sym, ap, ◌∙◌, ◌⊎◌, inl, inr, true, false, Option, none, some,
  List, [], ◌∷◌, arith, if◌then◌else◌, Bool-cases, set, length, take, get_elem?, All,
}
use rustydht_lib.Common.Net.{IpAddr, ip_eq}
use rustydht_lib.Storage.Throttler.{ThrottlerRecord, is_lamer, lamer, found, missing, scan}

-- The first record for an address.
abbrev pub record_for : IpAddr → List ThrottlerRecord → Option ThrottlerRecord
record_for ip [] = none
record_for ip (r ∷ rs) = if ip_eq r.ip ip then some r else record_for ip rs

-- A write changes the first record of no address but those of the old and of the new record.
pub record_for-set :
    (x : IpAddr) (rs : List ThrottlerRecord) (k : ℕ) (old r : ThrottlerRecord)
    → get_elem? rs k ≡ some old
    → ip_eq old.ip x ≡ false
    → ip_eq r.ip x ≡ false
    → record_for x (set rs k r) ≡ record_for x rs
record_for-set x [] k old r h ho hr = refl
record_for-set x (s ∷ rs) zero old r h ho hr = ground (arith, h, ho, hr)
record_for-set x (s ∷ rs) (suc k) old r h ho hr = rw (record_for-set x rs k old r h ho hr) refl

-- A record is found where no earlier one is for its address.
pub record_for-set_first :
    (ip : IpAddr) (rs : List ThrottlerRecord) (k : ℕ) (old r : ThrottlerRecord)
    → get_elem? rs k ≡ some old
    → record_for ip (take k rs) ≡ none
    → ip_eq r.ip ip ≡ true
    → record_for ip (set rs k r) ≡ some r
record_for-set_first ip [] k old r h before hr = absurd (ground (arith, h))
record_for-set_first ip (s ∷ rs) zero old r h before hr = rw hr refl
record_for-set_first ip (s ∷ rs) (suc k) old r h before hr = elim (Bool-cases (ip_eq s.ip ip)) [
  | inl e ↦ absurd (ground (arith, e, before))
  | inr e ↦ rw e (record_for-set_first ip rs k old r h (ground (arith, e, before)) hr)
]

pub record_for-take :
    (ip : IpAddr) (rs : List ThrottlerRecord) (k : ℕ)
    → record_for ip rs ≡ none
    → record_for ip (take k rs) ≡ none
record_for-take ip rs zero h = refl
record_for-take ip [] (suc k) h = refl
record_for-take ip (s ∷ rs) (suc k) h = elim (Bool-cases (ip_eq s.ip ip)) [
  | inl e ↦ absurd (ground (arith, e, h))
  | inr e ↦ rw e (record_for-take ip rs k (ground (arith, e, h)))
]

found_cong : {i j : ℕ} {r s : ThrottlerRecord} → i ≡ j → r ≡ s → found i r ≡ found j s
found_cong e f = rw (e, f) refl

-- The scan finds the first record for the address, and where it is.
pub scan-found :
    (ip : IpAddr) (rs : List ThrottlerRecord) (i : ℕ) (l : Option (ℕ × ThrottlerRecord))
    (r : ThrottlerRecord)
    → record_for ip rs ≡ some r
    → (k : ℕ) × (scan ip rs i l ≡ found (i + k) r)
      × (get_elem? rs k ≡ some r)
      × (ip_eq r.ip ip ≡ true)
      × (record_for ip (take k rs) ≡ none)
unfolding scan
scan-found ip [] i l r h = absurd (ground (arith, h))
scan-found ip (s ∷ rs) i l r h = elim (Bool-cases (ip_eq s.ip ip)) [
  | inl e ↦
      let same : s ≡ r = ground (arith, e, h) in
      (0, rw e (found_cong (omega arith) same), rw same refl, rw (sym same) e, refl)
  | inr e ↦
      let rest = scan-found ip rs (suc i) (some (lamer i s l)) r (ground (arith, e, h)) in
      (suc rest.0, rw e (rest.1 ∙ found_cong (omega arith) refl), rest.2, rest.3, rw e rest.4)
]

-- No record is lamer than this one.
abbrev pub IsLamest : ThrottlerRecord → ThrottlerRecord → Type 0
IsLamest lamest r = is_lamer r lamest ≡ false

is_lamer_refl : (r : ThrottlerRecord) → IsLamest r r
unfolding is_lamer
is_lamer_refl r = ground arith

-- What is no lamer than a record that is no lamer than this one.
is_lamer_trans : (a b c : ThrottlerRecord) → IsLamest a b → is_lamer c b ≡ false → IsLamest a c
unfolding is_lamer
is_lamer_trans a b c h k = ground (arith, h, k)

-- What is at most as lively as a record lamer than this one.
is_lamer_gain_lem : (a b c : ThrottlerRecord) → IsLamest a b → is_lamer b c ≡ true → IsLamest a c
unfolding is_lamer
is_lamer_gain_lem a b c h k = ground (arith, h, k)

suc_lem : (k : ℕ) → 1 + k ≡ suc k
suc_lem k = omega arith

-- Where the lamest record comes from: the ones before, or the k-th of these.
abbrev IsFrom : List ThrottlerRecord → ℕ → ℕ × ThrottlerRecord → ℕ × ThrottlerRecord → Type 0
IsFrom rs i l lamest =
    (lamest ≡ l) ⊎ ((k : ℕ) × (lamest.0 ≡ i + k) × (get_elem? rs k ≡ some lamest.1))

later-IsFrom :
    (r : ThrottlerRecord) (rs : List ThrottlerRecord) (i : ℕ) (l lamest : ℕ × ThrottlerRecord)
    → (k : ℕ) × (lamest.0 ≡ suc i + k) × (get_elem? rs k ≡ some lamest.1)
    → IsFrom (r ∷ rs) i l lamest
later-IsFrom r rs i l lamest h = inr (suc h.0, h.1 ∙ omega arith, h.2)

-- Without a record for the address, the scan ends with the lamest of all.
scan_rest :
    (ip : IpAddr) (rs : List ThrottlerRecord) (i : ℕ) (l : ℕ × ThrottlerRecord)
    → record_for ip rs ≡ none
    → (lamest : ℕ × ThrottlerRecord) × (scan ip rs i (some l) ≡ missing (some lamest))
      × IsLamest lamest.1 l.1
      × All (IsLamest lamest.1) rs
      × IsFrom rs i l lamest
unfolding scan lamer
scan_rest ip [] i l h = (l, refl, is_lamer_refl l.1, tt, inl refl)
scan_rest ip (r ∷ rs) i l h =
    let other : ip_eq r.ip ip ≡ false = ground (arith, h) in
    let none_for : record_for ip rs ≡ none = ground (arith, h) in
    elim (Bool-cases (is_lamer r l.1)) [
      | inl e ↦
          let rest = scan_rest ip rs (suc i) (i, r) none_for in
          rw (other, e)
            (
              rest.0,
              rest.1,
              is_lamer_gain_lem rest.0.1 r l.1 rest.2 e,
              (rest.2, rest.3),
              elim rest.4 [
                | inl same ↦
                    inr (0, ap (λ z. z.0) same ∙ omega arith, ap (λ z. some z.1) (sym same))
                | inr k ↦ later-IsFrom r rs i l rest.0 k
              ],
            )
      | inr e ↦
          let rest = scan_rest ip rs (suc i) l none_for in
          rw (other, e)
            (
              rest.0,
              rest.1,
              rest.2,
              (is_lamer_trans rest.0.1 l.1 r rest.2 e, rest.3),
              elim rest.4 [ inl same ↦ inl same | inr k ↦ later-IsFrom r rs i l rest.0 k ],
            )
    ]

-- The scan of a whole table, one record at least, without one for the address.
pub scan-missing :
    (ip : IpAddr) (rs : List ThrottlerRecord)
    → record_for ip rs ≡ none
    → 1 ≤ length rs
    → (lamest : ℕ × ThrottlerRecord) × (scan ip rs 0 none ≡ missing (some lamest))
      × All (IsLamest lamest.1) rs
      × (get_elem? rs lamest.0 ≡ some lamest.1)
unfolding scan lamer
scan-missing ip [] h n = absurd (omega arith)
scan-missing ip (r ∷ rs) h n =
    let other : ip_eq r.ip ip ≡ false = ground (arith, h) in
    let none_for : record_for ip rs ≡ none = ground (arith, h) in
    let rest = scan_rest ip rs 1 (0, r) none_for in
    rw other (
      rest.0,
      rest.1,
      (rest.2, rest.3),
      elim rest.4 [
        | inl same ↦ rw (ap (λ z. z.0) same) (ap (λ z. some z.1) (sym same))
        | inr k ↦ rw (k.1 ∙ suc_lem k.0) k.2
      ],
    )
