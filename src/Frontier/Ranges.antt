-- ===== src/Frontier/Ranges.antt =====
-- The list of all ranges of an array, and how many meet an interval and contain it, for
-- allRangesCounter of include/valseg/frontier.hpp.
use version_aware_lazy_segtr.Prelude.{
  ℕ, zero, suc, ◌+◌, ◌-◌, ◌*◌, ◌≤◌, ◌<◌, ◌≡◌, refl, ap, ◌∙◌, inl, inr, List, [], ◌∷◌, ◌++◌, arith,
  Bool-cases, leb, length, length-append,
}
use version_aware_lazy_segtr.Frontier.Over.{over, meets, contains}

-- The ranges that end at right and begin before k, and all ranges below n.
abbrev pub ending_at : ℕ → ℕ → List (ℕ × ℕ)
ending_at right zero = []
ending_at right (suc k) = (k, right) ∷ ending_at right k

abbrev pub all_ranges : ℕ → List (ℕ × ℕ)
all_ranges zero = []
all_ranges (suc n) = ending_at n (suc n) ++ all_ranges n

over-append : (f : ℕ → ℕ → ℕ) (xs ys : List (ℕ × ℕ)) → over f (xs ++ ys) ≡ over f xs + over f ys
over-append f [] ys = omega arith
over-append f ((a, b) ∷ xs) ys = let rest = over-append f xs ys in omega arith

length-ending_at : (right k : ℕ) → length (ending_at right k) ≡ k
length-ending_at right zero = refl
length-ending_at right (suc k) = ap suc (length-ending_at right k)

-- Twice their number.
pub length-all_ranges : (n : ℕ) → 2 * length (all_ranges n) ≡ n * (n + 1)
length-all_ranges zero = refl
length-all_ranges (suc n) =
    let rest = length-all_ranges n in
    let row = length-ending_at n (suc n) in
    let both = length-append (ending_at n (suc n)) (all_ranges n) in omega arith

module _ (l r : ℕ) (le : l ≤ r) where
  meets_ending : (right k : ℕ) → l ≤ right → k ≤ r + 1 → over (meets l r) (ending_at right k) ≡ k
  meets_ending right zero p q = refl
  meets_ending right (suc k) p q =
      let rest = meets_ending right k p (omega arith) in
      let here : meets l r k right ≡ 1 = ground arith in omega arith

  meets_ending_past :
      (right k : ℕ) → l ≤ right → r + 1 ≤ k → over (meets l r) (ending_at right k) ≡ r + 1
  meets_ending_past right zero p q = absurd (omega arith)
  meets_ending_past right (suc k) p q = elim (Bool-cases (leb (suc k) (r + 1))) [
    | inl few ↦ meets_ending right (suc k) p (ground arith) ∙ ground arith
    | inr more ↦
        let rest = meets_ending_past right k p (ground arith) in
        let here : meets l r k right ≡ 0 = ground arith in omega arith
  ]

  misses_ending : (right k : ℕ) → right < l → over (meets l r) (ending_at right k) ≡ 0
  misses_ending right zero p = refl
  misses_ending right (suc k) p =
      let rest = misses_ending right k p in
      let here : meets l r k right ≡ 0 = ground arith in omega arith

  contains_ending :
      (right k : ℕ) → r ≤ right → k ≤ l + 1 → over (contains l r) (ending_at right k) ≡ k
  contains_ending right zero p q = refl
  contains_ending right (suc k) p q =
      let rest = contains_ending right k p (omega arith) in
      let here : contains l r k right ≡ 1 = ground arith in omega arith

  contains_ending_past :
      (right k : ℕ) → r ≤ right → l + 1 ≤ k → over (contains l r) (ending_at right k) ≡ l + 1
  contains_ending_past right zero p q = absurd (omega arith)
  contains_ending_past right (suc k) p q = elim (Bool-cases (leb (suc k) (l + 1))) [
    | inl few ↦ contains_ending right (suc k) p (ground arith) ∙ ground arith
    | inr more ↦
        let rest = contains_ending_past right k p (ground arith) in
        let here : contains l r k right ≡ 0 = ground arith in omega arith
  ]

  lacks_ending : (right k : ℕ) → right < r → over (contains l r) (ending_at right k) ≡ 0
  lacks_ending right zero p = refl
  lacks_ending right (suc k) p =
      let rest = lacks_ending right k p in
      let here : contains l r k right ≡ 0 = ground arith in omega arith

  -- The ranges below n: all before l miss the interval, and all behind r.
  misses_all : (n : ℕ) → n ≤ l → over (meets l r) (all_ranges n) ≡ 0
  misses_all zero p = refl
  misses_all (suc n) p =
      let rest = misses_all n (omega arith) in
      let row = misses_ending n (suc n) (omega arith) in
      let both = over-append (meets l r) (ending_at n (suc n)) (all_ranges n) in omega arith

  meets_inside :
      (i : ℕ)
      → l + i ≤ r + 1
      → 2 * over (meets l r) (all_ranges (l + i)) + l * (l + 1) ≡ (l + i) * (l + i + 1)
  meets_inside zero p =
      let e : l + 0 ≡ l = omega arith in rw (e, misses_all l (omega arith)) (omega arith)
  meets_inside (suc i) p =
      let e : l + suc i ≡ suc (l + i) = omega arith in
      let rest = meets_inside i (omega arith) in
      let row = meets_ending (l + i) (suc (l + i)) (omega arith) (omega arith) in
      let both = over-append (meets l r) (ending_at (l + i) (suc (l + i))) (all_ranges (l + i)) in
      rw e (omega arith)

  pub meets_all :
      (j : ℕ)
      → 2 * over (meets l r) (all_ranges (r + 1 + j)) + l * (l + 1) + j * (j + 1)
        ≡ (r + 1 + j) * (r + 1 + j + 1)
  meets_all zero =
      let i = r + 1 - l in
      let e : r + 1 + 0 ≡ l + i = omega arith in
      let inside = meets_inside i (omega arith) in rw e (omega arith)
  meets_all (suc j) =
      let n = r + 1 + j in
      let e : r + 1 + suc j ≡ suc n = omega arith in
      let rest = meets_all j in
      let row = meets_ending_past n (suc n) (omega arith) (omega arith) in
      let both = over-append (meets l r) (ending_at n (suc n)) (all_ranges n) in rw e (omega arith)

  lacks_all : (n : ℕ) → n ≤ r → over (contains l r) (all_ranges n) ≡ 0
  lacks_all zero p = refl
  lacks_all (suc n) p =
      let rest = lacks_all n (omega arith) in
      let row = lacks_ending n (suc n) (omega arith) in
      let both = over-append (contains l r) (ending_at n (suc n)) (all_ranges n) in omega arith

  pub contains_all : (j : ℕ) → over (contains l r) (all_ranges (r + j)) ≡ (l + 1) * j
  contains_all zero =
      let e : r + 0 ≡ r = omega arith in rw (e, lacks_all r (omega arith)) (omega arith)
  contains_all (suc j) =
      let n = r + j in
      let e : r + suc j ≡ suc n = omega arith in
      let rest = contains_all j in
      let row = contains_ending_past n (suc n) (omega arith) (omega arith) in
      let both = over-append (contains l r) (ending_at n (suc n)) (all_ranges n) in
      rw e (omega arith)
