-- ===== src/Frontier/ClosedForm.antt =====
-- closedFormFrontier of include/valseg/frontier.hpp against the plain numbers.
use version_aware_lazy_segtr.Prelude.{
  ℕ, ◌+◌, ◌-◌, ◌≤◌, ◌<◌, ◌≡◌, refl, inl, inr, true, false, arith, Bool-cases, ltb, covers,
  if◌then◌else◌, ltb→lt,
}
use version_aware_lazy_segtr.Prelude.Result.{ok}
use version_aware_lazy_segtr.Size.{size_max}
use version_aware_lazy_segtr.Frontier.{
  along, counts_of, FrontierCounts, closed_form_frontier, frontier_counts, visited,
  validate_frontier_range,
}
use version_aware_lazy_segtr.Frontier.Count.{
  frontier, partials, decompositions, misses, frontier-add, count_at-covers,
}
use version_aware_lazy_segtr.Frontier.Run.{
  checked_size_add-ok, few_nodes, frontier_counts-counts, visited-frontier,
}
use version_aware_lazy_segtr.Frontier.Boundary.{along_path, along_path-off}
use version_aware_lazy_segtr.Frontier.Paths.{
  one, hangs_left, hangs_right, partials-paths, decompositions-paths, partials-right_path,
  decompositions-right_path,
}
use version_aware_lazy_segtr.Frontier.Along.{
  nodes_containing_both-along, along_left, along_right, along-counts,
}

module _ (n left right : ℕ) (ordered : left ≤ right) (inside : right < n)
    (small : n ≤ size_max) where
  abbrev Agrees : Type 0
  Agrees = closed_form_frontier n left right ≡ ok (frontier left right 0 (n - 1))

  valid : validate_frontier_range n left right ≡ ok tt
  unfolding validate_frontier_range
  valid = ground arith

  -- What the left boundary contributes, if there is one: the nodes on both its paths, and the
  -- decomposition nodes that hang off them.
  abbrev left_path : left - 1 < left → ℕ
  left_path before = along_path one (left - 1) left before 0 (n - 1)

  abbrev left_hanging : left - 1 < left → ℕ
  left_hanging before = along_path (hangs_left left right) (left - 1) left before 0 (n - 1)

  from_left_boundary :
      (before : left - 1 < left)
      → left_path before ≤ size_max
      → left_hanging before ≤ size_max
      → along n (left - 1) left (left - 1) left (ltb (right + 1) n) (right + 1) (counts_of 0 0)
        ≡ ok (counts_of (0 + left_path before) (0 + left_hanging before))
  from_left_boundary before fits fits_hanging =
      along-counts n (left - 1) left (left - 1) left (ltb (right + 1) n) (right + 1)
        (left_path before) (left_hanging before) (counts_of 0 0)
        (nodes_containing_both-along n (left - 1) left before (omega arith) fits)
        (along_left n left right before ordered inside fits_hanging) (omega arith) (omega arith)

  -- The decomposition nodes of a range that is not the whole array hang off the two boundaries.
  decompositions_inside :
      (behind : right < right + 1) (before : left - 1 < left)
      → decompositions left right 0 (n - 1)
        ≡ left_hanging before
          + along_path (hangs_right left right) right (right + 1) behind 0 (n - 1)
  decompositions_inside behind before =
      let ds =
        decompositions-paths (left - 1) left right (right + 1) before ordered behind (omega arith)
          (omega arith) refl 0 (n - 1) (omega arith) in
      let not_full : covers left right 0 (n - 1) ≡ false = ground arith in
      let met : misses left right 0 (n - 1) ≡ false = ground arith in
      let ds' = rw (met, not_full) at ds in omega arith

  -- The range begins and ends inside the array.
  both_boundaries : ltb 0 left ≡ true → ltb (right + 1) n ≡ true → Agrees
  unfolding closed_form_frontier
  both_boundaries from_left from_right =
      let start = ltb→lt 0 left from_left in
      let reaches = ltb→lt (right + 1) n from_right in
      let before : left - 1 < left = omega arith in
      let behind : right < right + 1 = omega arith in
      let apart : left - 1 < right + 1 = omega arith in
      let few = few_nodes n left right (omega arith) small in
      let all = frontier-add left right 0 (n - 1) (omega arith) in
      let (ps, fewer) =
        partials-paths (left - 1) left right (right + 1) before ordered behind apart (omega arith)
          refl 0 (n - 1) (omega arith) in
      let ds = decompositions_inside behind before in
      let s = left_path before in
      let h = left_hanging before in
      let s' = along_path one right (right + 1) behind 0 (n - 1) in
      let h' = along_path (hangs_right left right) right (right + 1) behind 0 (n - 1) in
      let shared = along_path one (left - 1) (right + 1) apart 0 (n - 1) in
      let first = from_left_boundary before (omega arith) (omega arith) in
      let second =
        along-counts n right (right + 1) (right + 1) right (ltb 0 left)
          (if ltb 0 left then left - 1 else 0) s' h' (counts_of (0 + s) (0 + h))
          (nodes_containing_both-along n right (right + 1) behind (omega arith) (omega arith))
          (along_right n left right behind ordered reaches (omega arith)) (omega arith)
          (omega arith) in
      let shared_run =
        nodes_containing_both-along n (left - 1) (right + 1) apart (omega arith) (omega arith) in
      let total = checked_size_add-ok (0 + s + s' - shared) (0 + h + h') (omega arith) in
      let same : 0 + s + s' - shared + (0 + h + h') ≡ frontier left right 0 (n - 1) = omega arith in
      rw (valid, first)
        (rw (from_left, from_right, rw from_left at second, shared_run, total, same) refl)

  -- It begins inside, and ends with the array.
  left_boundary_only : ltb 0 left ≡ true → ltb (right + 1) n ≡ false → Agrees
  unfolding closed_form_frontier
  left_boundary_only from_left at_right =
      let start = ltb→lt 0 left from_left in
      let before : left - 1 < left = omega arith in
      let behind : right < right + 1 = omega arith in
      let apart : left - 1 < right + 1 = omega arith in
      let few = few_nodes n left right (omega arith) small in
      let all = frontier-add left right 0 (n - 1) (omega arith) in
      let (ps, fewer) =
        partials-paths (left - 1) left right (right + 1) before ordered behind apart (omega arith)
          refl 0 (n - 1) (omega arith) in
      let ds = decompositions_inside behind before in
      let s = left_path before in
      let h = left_hanging before in
      let first = from_left_boundary before (omega arith) (omega arith) in
      let off = along_path-off one (left - 1) (right + 1) apart 0 (n - 1) (ground arith) in
      let off' = along_path-off one right (right + 1) behind 0 (n - 1) (ground arith) in
      let off'' =
        along_path-off (hangs_right left right) right (right + 1) behind 0 (n - 1) (ground arith) in
      let total = checked_size_add-ok (0 + s - 0) (0 + h) (omega arith) in
      let same : 0 + s - 0 + (0 + h) ≡ frontier left right 0 (n - 1) = omega arith in
      rw (valid, first, from_left, at_right, total, same) refl

  -- It begins with the array, and ends inside.
  right_boundary_only : ltb 0 left ≡ false → ltb (right + 1) n ≡ true → Agrees
  unfolding closed_form_frontier
  right_boundary_only at_left from_right =
      let reaches = ltb→lt (right + 1) n from_right in
      let zero_left : left ≡ 0 = ground arith in
      let behind : right < right + 1 = omega arith in
      let few = rw zero_left at (few_nodes n left right (omega arith) small) in
      let all = rw zero_left at (frontier-add left right 0 (n - 1) (omega arith)) in
      let ps = partials-right_path right (right + 1) behind refl 0 (n - 1) (omega arith) in
      let not_full : covers 0 right 0 (n - 1) ≡ false = ground arith in
      let met : misses 0 right 0 (n - 1) ≡ false = ground arith in
      let ds =
        rw (met, not_full) at
          (decompositions-right_path right (right + 1) behind refl 0 (n - 1) (omega arith)) in
      let s' = along_path one right (right + 1) behind 0 (n - 1) in
      let h' = along_path (hangs_right 0 right) right (right + 1) behind 0 (n - 1) in
      let second =
        along-counts n right (right + 1) (right + 1) right false 0 s' h' (counts_of 0 0)
          (nodes_containing_both-along n right (right + 1) behind (omega arith) (omega arith))
          (along_right n 0 right behind (omega arith) reaches (omega arith)) (omega arith)
          (omega arith) in
      let total = checked_size_add-ok (0 + s' - 0) (0 + h') (omega arith) in
      let same : 0 + s' - 0 + (0 + h') ≡ frontier 0 right 0 (n - 1) = omega arith in
      rw (valid, zero_left) (rw (from_right, second, total, same) refl)

  -- It is the whole array.
  no_boundary : ltb 0 left ≡ false → ltb (right + 1) n ≡ false → Agrees
  unfolding closed_form_frontier
  no_boundary at_left at_right =
      let full = count_at-covers 1 1 left right 0 (n - 1) (ground arith) (ground arith) in
      rw (valid, at_left, at_right, full) refl

  closed_form-frontier : Agrees
  closed_form-frontier = elim (Bool-cases (ltb 0 left)) [
    | inl from_left ↦ elim (Bool-cases (ltb (right + 1) n)) [
      | inl from_right ↦ both_boundaries from_left from_right
      | inr at_right ↦ left_boundary_only from_left at_right
    ]
    | inr at_left ↦ elim (Bool-cases (ltb (right + 1) n)) [
      | inl from_right ↦ right_boundary_only at_left from_right
      | inr at_right ↦ no_boundary at_left at_right
    ]
  ]

-- On a valid range of an array whose size std::size_t holds, frontierCounts and visited return,
-- and closedFormFrontier returns the same number from the two boundary paths.
pub closed_form-visited :
    (n left right : ℕ)
    → left ≤ right
    → right < n
    → n ≤ size_max
    → (c : FrontierCounts) × (k : ℕ) × (frontier_counts n left right ≡ ok c)
      × (visited c ≡ ok k)
      × (closed_form_frontier n left right ≡ ok k)
closed_form-visited n left right ordered inside small = (
  counts_of (partials left right 0 (n - 1)) (decompositions left right 0 (n - 1)),
  frontier left right 0 (n - 1),
  frontier_counts-counts n left right ordered inside small,
  visited-frontier n left right ordered inside small,
  closed_form-frontier n left right ordered inside small,
)
