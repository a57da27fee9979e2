-- ===== src/Tests/Frontier.antt =====
-- The frontiers of ranges over arrays of three and of eight elements.
use version_aware_lazy_segtr.Prelude.{ℕ, ◌≡◌, ◌≤◌, ◌<◌, refl, arith}
use version_aware_lazy_segtr.Prelude.Result.{
  ok, err, out_of_range, invalid_argument, Gives, IsOverflow,
}
use version_aware_lazy_segtr.Size.{size_max}
use version_aware_lazy_segtr.Frontier.{
  FrontierCounts, counts_of, frontier_counts, visited, closed_form_frontier, intersecting_nodes,
  tree_height, maximum_frontier, count_frontier, containing_loop, boundary_loop, counts_child,
  along,
}
use version_aware_lazy_segtr.Frontier.Family.{
  family_counts, all_ranges_counter, count_all, count_windows, frontier_sum, sum_loop,
  push_children,
}
use version_aware_lazy_segtr.Frontier.Visits.{sum_of_visits}
use version_aware_lazy_segtr.Frontier.Run.{visited-within_maximum}
use version_aware_lazy_segtr.Frontier.ClosedForm.{closed_form-visited}
use version_aware_lazy_segtr.Frontier.AllRanges.{frontier_sum-all_ranges}
use version_aware_lazy_segtr.Frontier.Ranges.{all_ranges}

-- The widest frontier over eight elements, from the second to the last but one.
frontier_counts-eight : frontier_counts 8 1 6 ≡ ok (counts_of 5 4)
unfolding frontier_counts count_frontier
frontier_counts-eight = refl

maximum_frontier-eight : maximum_frontier 3 ≡ ok 9
unfolding maximum_frontier
maximum_frontier-eight = refl

closed_form-eight : closed_form_frontier 8 1 6 ≡ ok 9
unfolding closed_form_frontier along containing_loop boundary_loop counts_child
closed_form-eight = refl

intersecting_nodes-eight : intersecting_nodes 8 1 6 ≡ ok 13
unfolding intersecting_nodes
intersecting_nodes-eight = refl

frontier_counts-outside : frontier_counts 8 1 8 ≡ err out_of_range
unfolding frontier_counts
frontier_counts-outside = refl

frontier_counts-reversed : frontier_counts 8 2 1 ≡ err invalid_argument
unfolding frontier_counts
frontier_counts-reversed = refl

-- Windows of two elements over four: one meets the first element, and contains it.
count_windows-four : count_windows 4 2 0 0 ≡ ok (family_counts 1 1)
unfolding count_windows
count_windows-four = refl

windows_sum-four : frontier_sum 4 (count_windows 4 2) ≡ ok 9
unfolding frontier_sum sum_loop push_children count_windows
windows_sum-four = refl

visited-within_maximum_example :
    (c : FrontierCounts) × (k h m : ℕ) × (frontier_counts 8 1 6 ≡ ok c)
    × (visited c ≡ ok k)
    × (tree_height 8 ≡ ok h)
    × (maximum_frontier h ≡ ok m)
    × (k ≤ m)
visited-within_maximum_example =
    visited-within_maximum 8 1 6 (omega arith) (omega arith) (omega arith)

closed_form-visited_example :
    (c : FrontierCounts) × (k : ℕ) × (frontier_counts 8 1 6 ≡ ok c)
    × (visited c ≡ ok k)
    × (closed_form_frontier 8 1 6 ≡ ok k)
closed_form-visited_example = closed_form-visited 8 1 6 (omega arith) (omega arith) (omega arith)

all_four : all_ranges_counter 4 ≡ ok (count_all 4 10)
unfolding all_ranges_counter
all_four = refl

frontier_sum-all_ranges_example :
    (total : ℕ) × (sum_of_visits 4 (all_ranges 4) ≡ ok total)
    × Gives
        (λ s. s ≡ total)
        (λ e. IsOverflow e × (size_max < total))
        (frontier_sum 4 (count_all 4 10))
frontier_sum-all_ranges_example = frontier_sum-all_ranges 4 (count_all 4 10) (omega arith) all_four
