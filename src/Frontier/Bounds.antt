-- ===== src/Frontier/Bounds.antt =====
-- The largest frontier over a segment of at most 2 ^ d elements, and maximumFrontier of
-- include/valseg/frontier.hpp.
use version_aware_lazy_segtr.Prelude.{
  ℕ, zero, suc, ◌+◌, ◌-◌, ◌*◌, ◌^◌, ◌≤◌, ◌<◌, ◌≡◌, refl, ◌⊎◌, inl, inr, true, arith, Bool-cases,
  ltb, leb, covers,
}
use version_aware_lazy_segtr.Prelude.Result.{ok}
use version_aware_lazy_segtr.Size.{midpoint, checked_size_add, checked_size_multiply}
use version_aware_lazy_segtr.Frontier.{maximum_frontier}
use version_aware_lazy_segtr.Frontier.Count.{
  frontier, misses, count_at-misses, count_at-covers, count_at-splits,
}
use native.Mathlib.Nat.{two-pow-succ}

module _ (ql qr : ℕ) where
  frontier_le_one :
      (l r : ℕ) → (misses ql qr l r ≡ true) ⊎ (covers ql qr l r ≡ true) → frontier ql qr l r ≤ 1
  frontier_le_one l r (inl out) = let e = count_at-misses 1 1 ql qr l r out in omega arith
  frontier_le_one l r (inr full) = elim (Bool-cases (misses ql qr l r)) [
    | inl out ↦ let e = count_at-misses 1 1 ql qr l r out in omega arith
    | inr met ↦ let e = count_at-covers 1 1 ql qr l r met full in omega arith
  ]

  missed_le : (l r : ℕ) → (r < ql) ⊎ (qr < l) → frontier ql qr l r ≡ 0
  missed_le l r out = count_at-misses 1 1 ql qr l r (ground arith)

  covered_le : (l r : ℕ) → ql ≤ l → r ≤ qr → frontier ql qr l r ≤ 1
  covered_le l r p q = frontier_le_one l r (inr (ground arith))

-- The most that one path can add below a segment of 2 ^ d elements, and two paths.
abbrev path : ℕ → ℕ
path zero = 1
path (suc d) = 2 * d + 2

abbrev pub two_paths : ℕ → ℕ
two_paths zero = 1
two_paths (suc zero) = 2
two_paths (suc (suc d)) = 4 * d + 5

path-step : (d : ℕ) → 1 + path d ≤ path (suc d)
path-step zero = omega arith
path-step (suc d) = omega arith

path-grows : (d : ℕ) → (0 < d) → 2 + path d ≤ path (suc d)
path-grows zero p = absurd (omega arith)
path-grows (suc d) p = omega arith

path-positive : (d : ℕ) → 1 ≤ path d
path-positive zero = omega arith
path-positive (suc d) = omega arith

two_paths-step : (d : ℕ) → 1 + two_paths d ≤ two_paths (suc d)
two_paths-step zero = omega arith
two_paths-step (suc zero) = omega arith
two_paths-step (suc (suc d)) = omega arith

two_paths-positive : (d : ℕ) → 1 ≤ two_paths d
two_paths-positive zero = omega arith
two_paths-positive (suc zero) = omega arith
two_paths-positive (suc (suc d)) = omega arith

two_paths-grow : (d : ℕ) → (0 < d) → 1 + path d + path d ≤ two_paths (suc d)
two_paths-grow zero p = absurd (omega arith)
two_paths-grow (suc d) p = omega arith

-- A segment of one element is covered or missed.
single : (ql qr l r : ℕ) → l ≤ r → r + 1 - l ≤ 2 ^ 0 → frontier ql qr l r ≤ 1
single ql qr l r le fits =
    let one : 2 ^ 0 ≡ 1 = refl in
    elim (Bool-cases (misses ql qr l r)) [
      | inl out ↦ frontier_le_one ql qr l r (inl out)
      | inr met ↦ frontier_le_one ql qr l r (inr (ground arith))
    ]

positive_of : (d k : ℕ) → k ≤ 2 ^ d → 2 ≤ k → 0 < d
positive_of zero k fits two = let one : 2 ^ 0 ≡ 1 = refl in absurd (omega arith)
positive_of (suc d) k fits two = omega arith

module _ (ql qr : ℕ) where
  -- The range reaches past one end of the segment.
  one_path :
      (d l r : ℕ) → l ≤ r → r + 1 - l ≤ 2 ^ d → (ql ≤ l) ⊎ (r ≤ qr) → frontier ql qr l r ≤ path d
  one_path zero l r le fits side = single ql qr l r le fits
  one_path (suc d) l r le fits side =
      let small = path-positive (suc d) in
      elim (Bool-cases (misses ql qr l r)) [
        | inl out ↦ omega (arith, frontier_le_one ql qr l r (inl out))
        | inr met ↦ elim (Bool-cases (covers ql qr l r)) [
          | inl full ↦ omega (arith, frontier_le_one ql qr l r (inr full))
          | inr partial ↦
              let m = midpoint l r in
              let below : l < r = ground arith in
              let double = two-pow-succ d in
              let step = path-step d in
              let split = count_at-splits 1 1 ql qr l r le met partial in
              elim side [
                | inl before ↦ elim (Bool-cases (ltb m qr)) [
                  | inl past ↦
                      let on_left = covered_le ql qr l m before (ground arith) in
                      let on_right =
                        one_path d (m + 1) r (omega arith) (omega arith) (inl (omega arith)) in
                      let grows =
                        path-grows d (positive_of d (r - m) (omega arith) (ground arith)) in
                      omega arith
                  | inr off ↦
                      let on_right = missed_le ql qr (m + 1) r (inr (ground arith)) in
                      let on_left = one_path d l m (omega arith) (omega arith) (inl before) in
                      omega arith
                ]
                | inr after ↦ elim (Bool-cases (leb ql m)) [
                  | inl reach ↦
                      let on_right = covered_le ql qr (m + 1) r (ground arith) after in
                      let on_left =
                        one_path d l m (omega arith) (omega arith) (inr (omega arith)) in
                      let grows =
                        path-grows d (positive_of d (m + 1 - l) (omega arith) (ground arith)) in
                      omega arith
                  | inr off ↦
                      let on_left = missed_le ql qr l m (inl (ground arith)) in
                      let on_right = one_path d (m + 1) r (omega arith) (omega arith) (inr after) in
                      omega arith
                ]
              ]
        ]
      ]

  -- A segment of 2 ^ d elements at most, and any range: two paths.
  pub frontier-two_paths :
      (d l r : ℕ) → l ≤ r → r + 1 - l ≤ 2 ^ d → frontier ql qr l r ≤ two_paths d
  frontier-two_paths zero l r le fits = single ql qr l r le fits
  frontier-two_paths (suc d) l r le fits =
      let small = two_paths-positive (suc d) in
      elim (Bool-cases (misses ql qr l r)) [
        | inl out ↦ omega (arith, frontier_le_one ql qr l r (inl out))
        | inr met ↦ elim (Bool-cases (covers ql qr l r)) [
          | inl full ↦ omega (arith, frontier_le_one ql qr l r (inr full))
          | inr partial ↦
              let m = midpoint l r in
              let below : l < r = ground arith in
              let double = two-pow-succ d in
              let split = count_at-splits 1 1 ql qr l r le met partial in
              let step = two_paths-step d in
              elim (Bool-cases (leb ql m)) [
                | inl reach ↦ elim (Bool-cases (ltb m qr)) [
                  | inl past ↦
                      let on_left =
                        one_path d l m (omega arith) (omega arith) (inr (ground arith)) in
                      let on_right =
                        one_path d (m + 1) r (omega arith) (omega arith) (inl (ground arith)) in
                      let grow =
                        two_paths-grow d (positive_of d (m + 1 - l) (omega arith) (ground arith)) in
                      omega arith
                  | inr off ↦
                      let on_right = missed_le ql qr (m + 1) r (inr (ground arith)) in
                      let on_left = frontier-two_paths d l m (omega arith) (omega arith) in
                      omega arith
                ]
                | inr off ↦
                    let on_left = missed_le ql qr l m (inl (ground arith)) in
                    let on_right = frontier-two_paths d (m + 1) r (omega arith) (omega arith) in
                    omega arith
              ]
        ]
      ]

-- maximumFrontier is the bound of two paths.
pub maximum_frontier-two_paths : (d : ℕ) → d ≤ 64 → maximum_frontier d ≡ ok (two_paths d)
unfolding maximum_frontier checked_size_add checked_size_multiply
maximum_frontier-two_paths zero small = refl
maximum_frontier-two_paths (suc zero) small = refl
maximum_frontier-two_paths (suc (suc d)) small = ground arith
