-- ===== src/Domain/Envelope.antt =====
-- The magnitude envelope of SumAddDomainGuard.
use version_aware_lazy_segtr.Prelude.{
  ℕ, zero, suc, ◌+◌, ◌-◌, ◌*◌, ◌≤◌, ◌<◌, ◌≡◌, inl, inr, true, List, [], ◌∷◌, arith, ◌==◌, ltb,
  if◌then◌else◌, Bool-cases, eq_of_==, ne_of_==, length,
}
use native.Mathlib.Nat.{le-div_iff_mul-le, mul-le-mul_right, le_trans}
use version_aware_lazy_segtr.Prelude.Int.{ℤ, pos, negsuc, pos_part, neg_part, ◌+ℤ◌}
use version_aware_lazy_segtr.Policy.{long_max, IsLong}
use version_aware_lazy_segtr.Size.{size_max, midpoint}
use version_aware_lazy_segtr.Segment.{Values, of_list, sum_from, seg_sum}
use version_aware_lazy_segtr.Segment.Canonical.{Canonical, leaf, inner}
use version_aware_lazy_segtr.Domain.{
  magnitude, max_magnitude_from, max_magnitude, saturated_add, proves_canonical_representability,
}

-- Every value below index n has a magnitude of b at most.
abbrev pub WithinBound : Values → ℕ → ℕ → Type 0
WithinBound f n b = (k : ℕ) → k < n → magnitude (f k) ≤ b

pub magnitude_parts : (z : ℤ) → magnitude z ≡ pos_part z + neg_part z
magnitude_parts (pos n) = omega arith
magnitude_parts (negsuc n) = omega arith

pub magnitude-+ℤ : (a b : ℤ) → magnitude (a +ℤ b) ≤ magnitude a + magnitude b
unfolding ◌+ℤ◌
magnitude-+ℤ a b = ground arith

pub sum_from_bound :
    (f : Values) (b l n : ℕ)
    → ((k : ℕ) → l ≤ k → k < l + n → magnitude (f k) ≤ b)
    → magnitude (sum_from f l n) ≤ n * b
unfolding sum_from
sum_from_bound f b l zero h = omega arith
sum_from_bound f b l (suc n) h =
    let rest = sum_from_bound f b (suc l) n (λ k p q. h k (omega arith) (omega arith)) in
    let first = h l (omega arith) (omega arith) in
    let both = magnitude-+ℤ (f l) (sum_from f (suc l) n) in omega arith

pub IsLong-of_magnitude : (z : ℤ) → magnitude z ≤ long_max → IsLong z
IsLong-of_magnitude (pos n) h = omega arith
IsLong-of_magnitude (negsuc n) h = omega arith

module _ (f : Values) (b n : ℕ) (bounded : WithinBound f n b) (small : n * b ≤ long_max) where
  segment_IsLong : (l r : ℕ) → l ≤ r → r < n → IsLong (seg_sum f l r)
  segment_IsLong l r p q =
      let sum = sum_from_bound f b l (r + 1 - l) (λ k a c. bounded k (omega arith)) in
      let fewer = mul-le-mul_right {m = r + 1 - l} {n = n} b (omega arith) in
      IsLong-of_magnitude (seg_sum f l r) (le_trans sum (le_trans fewer small))

  Canonical-within : (fuel l r : ℕ) → l ≤ r → r < n → r - l < fuel → Canonical f l r
  Canonical-within zero l r p q enough = absurd (omega arith)
  Canonical-within (suc fuel) l r p q enough = elim (Bool-cases (l == r)) [
    | inl same ↦ leaf (eq_of_== l r same) (segment_IsLong l r p q)
    | inr more ↦
        let below : l < r = ground (arith, ne_of_== l r more) in
        inner below
          (Canonical-within fuel l (midpoint l r) (omega arith) (omega arith) (omega arith))
          (Canonical-within fuel (midpoint l r + 1) r (omega arith) (omega arith) (omega arith))
          (segment_IsLong l r p q)
  ]

  -- An array within the envelope meets the numeric contract.
  pub envelope_Canonical : 0 < n → Canonical f 0 (n - 1)
  envelope_Canonical h = Canonical-within n 0 (n - 1) (omega arith) (omega arith) (omega arith)

-- What the scalar test proves.
pub proves_small :
    (b n : ℕ) → 0 < n → proves_canonical_representability b n ≡ true → n * b ≤ long_max
unfolding proves_canonical_representability
proves_small b n h e = ground (arith, (le-div_iff_mul-le {k = n} {x = b} {y = long_max} h).0)

-- A bound that passes the scalar test was not cut off.
pub saturated_add_exact :
    (a b n : ℕ)
    → 0 < n
    → proves_canonical_representability (saturated_add a b) n ≡ true
    → saturated_add a b ≡ a + b
unfolding saturated_add
saturated_add_exact a b n h e = elim (Bool-cases (ltb (size_max - a) b)) [
  | inl over ↦ absurd (cut n h (proves_small size_max n h (rw over at e)))
  | inr fits ↦ rw fits
]
  where
    cut : (n : ℕ) → 0 < n → n * size_max ≤ long_max → ⊥
    cut n h k = omega arith

max_magnitude_from-ge : (m : ℕ) (xs : List ℤ) → m ≤ max_magnitude_from m xs
unfolding max_magnitude_from
max_magnitude_from-ge m [] = omega arith
max_magnitude_from-ge m (x ∷ xs) =
    let next = if ltb m (magnitude x) then magnitude x else m in
    ground (arith, max_magnitude_from-ge next xs)

max_magnitude_from_bounds :
    (m : ℕ) (xs : List ℤ) → WithinBound (of_list xs) (length xs) (max_magnitude_from m xs)
unfolding max_magnitude_from
max_magnitude_from_bounds m [] k h = elim h [ ]
max_magnitude_from_bounds m (x ∷ xs) zero h =
    let next = if ltb m (magnitude x) then magnitude x else m in
    ground (arith, max_magnitude_from-ge next xs)
max_magnitude_from_bounds m (x ∷ xs) (suc k) h =
    max_magnitude_from_bounds (if ltb m (magnitude x) then magnitude x else m) xs k (omega arith)

-- The bound that the guard takes from an exact traversal.
pub max_magnitude_bounds : (xs : List ℤ) → WithinBound (of_list xs) (length xs) (max_magnitude xs)
unfolding max_magnitude
max_magnitude_bounds xs = max_magnitude_from_bounds 0 xs
