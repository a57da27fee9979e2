-- ===== src/Frontier/Sums.antt =====
-- frontierSum of include/valseg/frontier.hpp against the frontiers of the ranges of a family.
use version_aware_lazy_segtr.Prelude.{
  ℕ, zero, suc, ◌+◌, ◌-◌, ◌*◌, ◌≤◌, ◌<◌, ◌≡◌, ◌||◌, inl, inr, List, [], ◌∷◌, false, arith,
  Bool-cases, ltb, ◌==◌, length, eq_of_==, ne_of_==,
}
use version_aware_lazy_segtr.Prelude.Result
use version_aware_lazy_segtr.Prelude.Result.{
  Result, ok, err, Gives, gives, IsOverflow, ◌>>=◌, Result-cases,
}
use version_aware_lazy_segtr.Size.{midpoint, size_max}
use version_aware_lazy_segtr.Size.Exact.{checked_size_add-exact}
use version_aware_lazy_segtr.Frontier.Family.{
  family_counts, Counter, Frame, frame, push_children, sum_loop, frontier_sum,
}
use version_aware_lazy_segtr.Frontier.Over.{
  over, meets, contains, visits, over-splits, over-leaf, over-bounds, over-visits, over-shrinks,
}

-- The frontier of a range in the tree over n elements.
abbrev pub frontier_within : ℕ → ℕ → ℕ → ℕ
frontier_within n left right = visits 0 (n - 1) left right

module _ (n : ℕ) (family : List (ℕ × ℕ)) where
  -- A counter that counts the ranges of the family, for the intervals of the tree.
  abbrev pub Counts : Counter → Type 0
  Counts counter =
      (l r : ℕ)
      → l ≤ r
      → r < n
      → counter l r ≡ ok (family_counts (over (meets l r) family) (over (contains l r) family))

  -- The nodes below the frames of a stack, and the visits to them that are not counted yet.
  abbrev nodes_left : List Frame → ℕ
  nodes_left [] = 0
  nodes_left (top ∷ rest) = 2 * (top.segment_right + 1 - top.segment_left) - 1 + nodes_left rest

  abbrev pub visits_left : List Frame → ℕ
  visits_left [] = 0
  visits_left (top ∷ rest) =
      over (visits top.segment_left top.segment_right) family
      - top.parent_containing
      + visits_left rest

  -- A frame of an interval of the tree, with its parent's count.
  abbrev IsFrame : Frame → Type 0
  IsFrame top =
      (top.segment_left ≤ top.segment_right)
      × (top.segment_right < n)
      × (top.parent_containing ≤ over (contains top.segment_left top.segment_right) family)

  abbrev AllFrames : List Frame → Type 0
  AllFrames [] = Unit {0}
  AllFrames (top ∷ rest) = IsFrame top × AllFrames rest

  -- What one round leaves to do.
  push_children-visits :
      (top : Frame) (rest : List Frame)
      → IsFrame top
      → AllFrames rest
      → let l = top.segment_left in
        let r = top.segment_right in
        let counts = family_counts (over (meets l r) family) (over (contains l r) family) in
        let stack = push_children top counts rest in
        AllFrames stack
        × (nodes_left stack < nodes_left (top ∷ rest))
        × (over (meets l r) family - top.parent_containing + visits_left stack
            ≡ visits_left (top ∷ rest))
  unfolding push_children
  push_children-visits top rest (le, inside, above) others =
      let l = top.segment_left in
      let r = top.segment_right in
      let m = midpoint l r in
      elim (Bool-cases (l == r)) [
        | inl single ↦
            let e : l ≡ r = eq_of_== l r single in
            let same = over-leaf l r family e in rw single (others, omega arith, omega arith)
        | inr more ↦
            let lt : l < r = ground (arith, ne_of_== l r more) in
            let split = over-splits l r family lt in
            let (small, _) = over-bounds l r family le in
            let on_left = over-shrinks l r l m family (omega arith) (omega arith) in
            let on_right = over-shrinks l r (m + 1) r family (omega arith) (omega arith) in
            let visited_left = over-visits l m family (omega arith) in
            let visited_right = over-visits (m + 1) r family (omega arith) in
            rw more (
              ((omega arith, inside, on_right), ((omega arith, omega arith, on_left), others)),
              omega arith,
              omega arith,
            )
      ]

  sum_loop-visits :
      (counter : Counter)
      → Counts counter
      → length family ≤ size_max
      → (fuel : ℕ) (stack : List Frame) (sum : ℕ) → AllFrames stack
      → nodes_left stack ≤ fuel
      → sum ≤ size_max
      → Gives
          (λ s. s ≡ sum + visits_left stack)
          (λ e. IsOverflow e × (size_max < sum + visits_left stack))
          (sum_loop counter fuel stack sum)
  unfolding sum_loop
  sum_loop-visits counter counted small fuel [] sum good enough fits = gives (omega arith)
  sum_loop-visits counter counted small zero (top ∷ rest) sum (frame_good, others) enough fits =
      let le = frame_good.0 in absurd (omega arith)
  sum_loop-visits counter counted small (suc fuel) (top ∷ rest) sum (frame_good, others) enough
        fits =
      let (le, inside, above) = frame_good in
      let l = top.segment_left in
      let r = top.segment_right in
      let met = over (meets l r) family in
      let covered = over (contains l r) family in
      let (within, many) = over-bounds l r family le in
      let legal : (ltb met covered || ltb covered top.parent_containing) ≡ false = ground arith in
      let (next_good, fewer, same) = push_children-visits top rest frame_good others in
      rw (counted l r le inside, legal)
        (Result.bind
          (Result.mono
            (checked_size_add-exact (met - covered) (covered - top.parent_containing) (omega arith))
            (λ k p. p) (λ e p. (p.0, omega arith)))
          λ k (ek, _).
            Result.bind
              (Result.mono (checked_size_add-exact sum k fits) (λ k p. p)
                (λ e p. (p.0, omega arith)))
              λ next (en, fits_next).
                Result.mono
                  (sum_loop-visits counter counted small fuel _ next next_good (omega arith)
                    fits_next)
                  (λ s p. omega arith) (λ e p. (p.0, omega arith)))

  pub frontier_sum-over :
      (counter : Counter)
      → Counts counter
      → length family ≤ size_max
      → 0 < n
      → Gives
          (λ s. s ≡ over (frontier_within n) family)
          (λ e. IsOverflow e × (size_max < over (frontier_within n) family))
          (frontier_sum n counter)
  unfolding frontier_sum
  frontier_sum-over counter counted small positive =
      let some_element : (n == 0) ≡ false = ground arith in
      rw some_element (
        Result.mono
          (sum_loop-visits counter counted small (2 * n) (frame 0 (n - 1) 0 ∷ []) 0
            ((omega arith, omega arith, omega arith), tt) (omega arith) (omega arith))
          (λ s p. omega arith) (λ e p. (p.0, omega arith)))
