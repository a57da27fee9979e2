-- ===== src/Frontier/Over.antt =====
-- What the ranges of a family visit, meet and contain at a node, summed, for frontierSum of
-- include/valseg/frontier.hpp.
use version_aware_lazy_segtr.Prelude.{
  ℕ, ◌+◌, ◌*◌, ◌≤◌, ◌<◌, ◌≡◌, refl, inl, inr, List, [], ◌∷◌, false, arith, Bool-cases, covers,
  if◌then◌else◌, length,
}
use version_aware_lazy_segtr.Size.{midpoint}
use version_aware_lazy_segtr.Frontier.Count.{
  frontier, misses, count_at-misses, count_at-covers, count_at-splits,
}

-- The sum of a number over the ranges of a family.
abbrev pub over : (ℕ → ℕ → ℕ) → List (ℕ × ℕ) → ℕ
over f [] = 0
over f ((left, right) ∷ rest) = f left right + over f rest

-- Whether a range meets an interval, and whether it covers it, as numbers.
abbrev pub meets : ℕ → ℕ → ℕ → ℕ → ℕ
meets l r left right = if misses left right l r then 0 else 1

abbrev pub contains : ℕ → ℕ → ℕ → ℕ → ℕ
contains l r left right = if covers left right l r then 1 else 0

abbrev pub visits : ℕ → ℕ → ℕ → ℕ → ℕ
visits l r left right = frontier left right l r

-- One range and one node: every visited node is the node itself or is below one of its children,
-- unless the range stops at the node.
visits-splits :
    (l r left right : ℕ)
    → l < r
    → visits l r left right + 2 * contains l r left right
      ≡ meets l r left right
        + visits l (midpoint l r) left right
        + visits (midpoint l r + 1) r left right
visits-splits l r left right lt =
    let m = midpoint l r in
    elim (Bool-cases (misses left right l r)) [
      | inl out ↦
          let here = count_at-misses 1 1 left right l r out in
          let a = count_at-misses 1 1 left right l m (ground arith) in
          let b = count_at-misses 1 1 left right (m + 1) r (ground arith) in
          let no : covers left right l r ≡ false = ground arith in rw (no, out) (omega arith)
      | inr met ↦ elim (Bool-cases (covers left right l r)) [
        | inl full ↦
            let here = count_at-covers 1 1 left right l r met full in
            let a = count_at-covers 1 1 left right l m (ground arith) (ground arith) in
            let b = count_at-covers 1 1 left right (m + 1) r (ground arith) (ground arith) in
            rw (full, met) (omega arith)
        | inr partial ↦
            let here = count_at-splits 1 1 left right l r (omega arith) met partial in
            rw (partial, met) (omega arith)
      ]
    ]

visits-leaf : (l r left right : ℕ) → l ≡ r → visits l r left right ≡ meets l r left right
visits-leaf l r left right e = elim (Bool-cases (misses left right l r)) [
  | inl out ↦ let here = count_at-misses 1 1 left right l r out in rw out (omega arith)
  | inr met ↦
      let here = count_at-covers 1 1 left right l r met (ground arith) in rw met (omega arith)
]

contains-bounds :
    (l r left right : ℕ)
    → l ≤ r
    → (contains l r left right ≤ meets l r left right) × (meets l r left right ≤ 1)
contains-bounds l r left right le = (ground arith, ground arith)

contains_shrinks :
    (l r l' r' left right : ℕ)
    → l ≤ l'
    → r' ≤ r
    → contains l r left right ≤ contains l' r' left right
contains_shrinks l r l' r' left right p q = ground arith

contains-visits : (l r left right : ℕ) → l ≤ r → contains l r left right ≤ visits l r left right
contains-visits l r left right le = elim (Bool-cases (covers left right l r)) [
  | inl full ↦
      let here = count_at-covers 1 1 left right l r (ground arith) full in rw full (omega arith)
  | inr partial ↦ rw partial (omega arith)
]

-- The same for the sums over a family.
module _ (l r : ℕ) where
  pub over-splits :
      (family : List (ℕ × ℕ))
      → l < r
      → over (visits l r) family + 2 * over (contains l r) family
        ≡ over (meets l r) family
          + over (visits l (midpoint l r)) family
          + over (visits (midpoint l r + 1) r) family
  over-splits [] lt = refl
  over-splits ((a, b) ∷ rest) lt =
      let one = visits-splits l r a b lt in let others = over-splits rest lt in omega arith

  pub over-leaf :
      (family : List (ℕ × ℕ)) → l ≡ r → over (visits l r) family ≡ over (meets l r) family
  over-leaf [] e = refl
  over-leaf ((a, b) ∷ rest) e =
      let one = visits-leaf l r a b e in let others = over-leaf rest e in omega arith

  pub over-bounds :
      (family : List (ℕ × ℕ))
      → l ≤ r
      → (over (contains l r) family ≤ over (meets l r) family)
        × (over (meets l r) family ≤ length family)
  over-bounds [] le = (omega arith, omega arith)
  over-bounds ((a, b) ∷ rest) le =
      let (p, q) = contains-bounds l r a b le in
      let (p', q') = over-bounds rest le in (omega arith, omega arith)

  pub over-visits :
      (family : List (ℕ × ℕ)) → l ≤ r → over (contains l r) family ≤ over (visits l r) family
  over-visits [] le = omega arith
  over-visits ((a, b) ∷ rest) le =
      let one = contains-visits l r a b le in let others = over-visits rest le in omega arith

  pub over-shrinks :
      (l' r' : ℕ) (family : List (ℕ × ℕ))
      → l ≤ l'
      → r' ≤ r
      → over (contains l r) family ≤ over (contains l' r') family
  over-shrinks l' r' [] p q = omega arith
  over-shrinks l' r' ((a, b) ∷ rest) p q =
      let one = contains_shrinks l r l' r' a b p q in
      let others = over-shrinks l' r' rest p q in omega arith
