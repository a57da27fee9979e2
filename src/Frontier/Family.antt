-- ===== src/Frontier/Family.antt =====
-- frontierSum, allRangesCounter and fixedWidthCounter of include/valseg/frontier.hpp.
use version_aware_lazy_segtr.Prelude.{
  ℕ, zero, suc, ◌+◌, ◌-◌, ◌*◌, ◌||◌, List, [], ◌∷◌, ltb, leb, ◌==◌, if◌then◌else◌,
}
use version_aware_lazy_segtr.Prelude.Result.{
  Result, ok, err, invalid_argument, out_of_range, out_of_fuel, ◌>>=◌, ◌>>◌,
}
use version_aware_lazy_segtr.Size.{
  midpoint, checked_size_add, checked_size_multiply, triangular_number,
}

pub record RangeFamilyCounts : Type 0 where
  pub intersecting : ℕ
  pub containing : ℕ

abbrev pub family_counts : ℕ → ℕ → RangeFamilyCounts
family_counts i c = record { intersecting = i; containing = c }

abbrev pub Counter : Type 0
Counter = ℕ → ℕ → Result RangeFamilyCounts

pub record Frame : Type 0 where
  pub segment_left : ℕ
  pub segment_right : ℕ
  pub parent_containing : ℕ

abbrev pub frame : ℕ → ℕ → ℕ → Frame
frame l r c = record { segment_left = l; segment_right = r; parent_containing = c }

-- The frames that a node pushes: its children, unless it is a leaf.
unfoldable pub push_children : Frame → RangeFamilyCounts → List Frame → List Frame
push_children top counts stack =
    let middle = midpoint top.segment_left top.segment_right in
    if top.segment_left == top.segment_right
    then stack
    else frame (middle + 1) top.segment_right counts.containing
      ∷ frame top.segment_left middle counts.containing
      ∷ stack

-- The loop while (!stack.empty()); the back of the vector is the head of the list.
unfoldable pub sum_loop : Counter → ℕ → List Frame → ℕ → Result ℕ
unfolding checked_size_add push_children
sum_loop counter fuel [] sum = ok sum
sum_loop counter zero (top ∷ stack) sum = err out_of_fuel
sum_loop counter (suc fuel) (top ∷ stack) sum = do
  counts ← counter top.segment_left top.segment_right
  if ltb counts.intersecting counts.containing || ltb counts.containing top.parent_containing
      then err invalid_argument
      else (do
        contribution ←
            checked_size_add (counts.intersecting - counts.containing)
              (counts.containing - top.parent_containing)
        next ← checked_size_add sum contribution
        sum_loop counter fuel (push_children top counts stack) next)

-- The tree over n elements has fewer than 2n nodes.
unfoldable pub frontier_sum : ℕ → Counter → Result ℕ
unfolding sum_loop
frontier_sum n counter =
    if n == 0 then err invalid_argument else sum_loop counter (2 * n) (frame 0 (n - 1) 0 ∷ []) 0

unfoldable pub check_interval : (n segment_left segment_right : ℕ) → Result (Unit {0})
check_interval n segment_left segment_right =
    if ltb segment_right segment_left || leb n segment_right then err out_of_range else ok tt

-- The callable that the factory returns.
unfoldable pub count_all : (n total : ℕ) → Counter
unfolding check_interval triangular_number checked_size_multiply
count_all n total segment_left segment_right = do
  check_interval n segment_left segment_right
  entirely_left ← triangular_number segment_left
  entirely_right ← triangular_number (n - 1 - segment_right)
  containing ← checked_size_multiply (segment_left + 1) (n - segment_right)
  ok (family_counts (total - entirely_left - entirely_right) containing)

unfoldable pub all_ranges_counter : ℕ → Result Counter
unfolding triangular_number count_all
all_ranges_counter n =
    if n == 0
    then err invalid_argument
    else (do total ← triangular_number n; ok (count_all n total))

-- Windows that start in [low, high], clipped to the valid starts.
unfoldable pub windows_in : (last_start low high : ℕ) → ℕ
windows_in last_start low high =
    let clipped = if ltb high last_start then high else last_start in
    if leb low clipped then clipped - low + 1 else 0

-- The first window that ends at the index or behind it: index + 1 - width, or 0.
unfoldable pub first_start : (index width : ℕ) → ℕ
first_start index width = if ltb width (index + 1) then index + 1 - width else 0

unfoldable pub count_windows : (n width : ℕ) → Counter
unfolding check_interval windows_in first_start
count_windows n width segment_left segment_right = do
  check_interval n segment_left segment_right
  let last_start = n - width
  let intersecting = windows_in last_start (first_start segment_left width) segment_right
  let containing =
      if leb (segment_right - segment_left + 1) width
      then windows_in last_start (first_start segment_right width) segment_left
      else 0
  ok (family_counts intersecting containing)

unfoldable pub fixed_width_counter : (n width : ℕ) → Result Counter
unfolding count_windows
fixed_width_counter n width =
    if n == 0
    then err invalid_argument
    else if width == 0 || ltb n width
    then err invalid_argument
    else ok (count_windows n width)
