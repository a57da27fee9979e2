-- ===== src/Frontier.antt =====
-- The update frontier of include/valseg/frontier.hpp: the nodes that an update visits, counted by
-- running the recursion, by a closed form, and summed over a family of ranges. A recursion takes
-- fuel for its depth and is given the number of elements.
pub mod Family
pub mod Count
pub mod Bounds
pub mod Run
pub mod Over
pub mod Sums
pub mod Visits
pub mod Ranges
pub mod AllRanges
pub mod Boundary
pub mod Paths
pub mod Loops
pub mod Along
pub mod ClosedForm
pub mod Pushes
use version_aware_lazy_segtr.Prelude.{
  ℕ, zero, suc, ◌+◌, ◌-◌, ◌&&◌, ◌||◌, not, ◌==◌, Bool, true, false, ltb, leb, covers, if◌then◌else◌,
}
use version_aware_lazy_segtr.Prelude.Result.{
  Result, ok, err, overflow_error, invalid_argument, out_of_range, out_of_fuel, ◌>>=◌, ◌>>◌,
}
use version_aware_lazy_segtr.Size
use version_aware_lazy_segtr.Size.{
  midpoint, inclusive_length, checked_size_add, checked_size_multiply,
}

pub record FrontierCounts : Type 0 where
  pub partial : ℕ
  pub decomposition : ℕ

abbrev pub counts_of : ℕ → ℕ → FrontierCounts
counts_of p d = record { partial = p; decomposition = d }

unfoldable pub visited : FrontierCounts → Result ℕ
unfolding checked_size_add
visited counts = checked_size_add counts.partial counts.decomposition

-- The counts that the code changes in place are passed on and handed back.
unfoldable pub count_frontier :
    ℕ → (segment_left segment_right left right : ℕ) → FrontierCounts → Result FrontierCounts
unfolding checked_size_add
count_frontier zero segment_left segment_right left right counts = err out_of_fuel
count_frontier (suc fuel) segment_left segment_right left right counts =
    if covers left right segment_left segment_right
    then (do
      decomposition ← checked_size_add counts.decomposition 1
      ok (record counts { decomposition = decomposition }))
    else (do
      partial ← checked_size_add counts.partial 1
      let counts = record counts { partial = partial }
      let middle = midpoint segment_left segment_right
      let go_left = count_frontier fuel segment_left middle left right
      let go_right = count_frontier fuel (middle + 1) segment_right left right
      counts ← if leb left middle then go_left counts else ok counts
      if ltb middle right then go_right counts else ok counts)

-- The loop while (segmentLeft != segmentRight), with the count so far.
unfoldable pub containing_loop : ℕ → (segment_left segment_right first second count : ℕ) → Result ℕ
unfolding checked_size_add
containing_loop zero segment_left segment_right first second count = err out_of_fuel
containing_loop (suc fuel) segment_left segment_right first second count =
    let middle = midpoint segment_left segment_right in
    let on_left = containing_loop fuel segment_left middle first second in
    let on_right = containing_loop fuel (middle + 1) segment_right first second in
    if segment_left == segment_right
    then ok count
    else if leb first middle && leb second middle
    then (do count ← checked_size_add count 1; on_left count)
    else if ltb middle first && ltb middle second
    then (do count ← checked_size_add count 1; on_right count)
    else ok count

unfoldable pub nodes_containing_both : (n first second : ℕ) → Result ℕ
unfolding containing_loop
nodes_containing_both n first second = containing_loop n 0 (n - 1) first second 1

-- The body of the loop while (true) counts the child away from the boundary.
unfoldable pub counts_child : (contains_other inner_on_left : Bool) → (outer inner : ℕ) → Bool
counts_child contains_other inner_on_left outer inner =
    let range_is_left = ltb inner outer in
    not contains_other
    && ((range_is_left && not inner_on_left) || (not range_is_left && inner_on_left))

unfoldable pub boundary_loop :
    ℕ
    → (segment_left segment_right outer inner : ℕ) → (other_boundary_exists : Bool)
    → (other_outer count : ℕ) → Result ℕ
unfolding checked_size_add counts_child
boundary_loop zero segment_left segment_right outer inner other_boundary_exists other_outer count =
    err out_of_fuel
boundary_loop (suc fuel) segment_left segment_right outer inner other_boundary_exists other_outer
      count =
    let middle = midpoint segment_left segment_right in
    let contains_other =
      other_boundary_exists && (leb segment_left other_outer && leb other_outer segment_right) in
    let inner_on_left = leb inner middle in
    let outer_on_left = leb outer middle in
    let on_left =
      boundary_loop fuel segment_left middle outer inner other_boundary_exists other_outer in
    let on_right =
      boundary_loop fuel (middle + 1) segment_right outer inner other_boundary_exists other_outer in
    if (inner_on_left && not outer_on_left) || (outer_on_left && not inner_on_left)
    then ok (count + (if contains_other then 0 else 1))
    else (do
      count ←
          if counts_child contains_other inner_on_left outer inner
          then checked_size_add count 1
          else ok count
      if inner_on_left then on_left count else on_right count)

unfoldable pub decomposition_along_boundary : (n outer inner : ℕ) → Bool → ℕ → Result ℕ
unfolding boundary_loop
decomposition_along_boundary n outer inner other_boundary_exists other_outer =
    boundary_loop n 0 (n - 1) outer inner other_boundary_exists other_outer 0

unfoldable pub validate_frontier_range : (n left right : ℕ) → Result (Unit {0})
validate_frontier_range n left right =
    if n == 0
    then err invalid_argument
    else if ltb right left
    then err invalid_argument
    else if leb n right
    then err out_of_range
    else ok tt

unfoldable pub frontier_counts : (n left right : ℕ) → Result FrontierCounts
unfolding validate_frontier_range count_frontier
frontier_counts n left right =
    validate_frontier_range n left right >> count_frontier n 0 (n - 1) left right (counts_of 0 0)

-- The two counts that one boundary contributes.
unfoldable pub along :
    (n first second outer inner : ℕ) → Bool → ℕ → FrontierCounts → Result FrontierCounts
unfolding checked_size_add nodes_containing_both decomposition_along_boundary
along n first second outer inner other_boundary other_outer counts = do
  containing ← nodes_containing_both n first second
  partial ← checked_size_add counts.partial containing
  hanging ← decomposition_along_boundary n outer inner other_boundary other_outer
  decomposition ← checked_size_add counts.decomposition hanging
  ok (counts_of partial decomposition)

unfoldable pub closed_form_frontier : (n left right : ℕ) → Result ℕ
unfolding validate_frontier_range nodes_containing_both along checked_size_add
closed_form_frontier n left right = do
  validate_frontier_range n left right
  let left_boundary = ltb 0 left
  let right_boundary = ltb (right + 1) n
  if not left_boundary && not right_boundary then ok 1 else (do
    counts ←
        if left_boundary
        then along n (left - 1) left (left - 1) left right_boundary (right + 1) (counts_of 0 0)
        else ok (counts_of 0 0)
    counts ←
        if right_boundary
        then along n right (right + 1) (right + 1) right left_boundary
            (if left_boundary then left - 1 else 0) counts
        else ok counts
    shared ←
        if left_boundary && right_boundary
        then nodes_containing_both n (left - 1) (right + 1)
        else ok 0
    checked_size_add (counts.partial - shared) counts.decomposition)

unfoldable pub intersecting_nodes : (n left right : ℕ) → Result ℕ
unfolding frontier_counts inclusive_length checked_size_add
intersecting_nodes n left right = do
  frontier ← frontier_counts n left right
  leaves ← inclusive_length left right
  decomposition_subtrees ← checked_size_add leaves (leaves - frontier.decomposition)
  checked_size_add frontier.partial decomposition_subtrees

-- treeHeight of this header calls the one of detail/checked_size.hpp.
unfoldable pub tree_height : ℕ → Result ℕ
unfolding Size.tree_height
tree_height n = Size.tree_height n

unfoldable pub maximum_frontier : ℕ → Result ℕ
unfolding checked_size_add checked_size_multiply
maximum_frontier height =
    if height == 0
    then ok 1
    else if height == 1
    then ok 2
    else (do below ← checked_size_multiply 4 (height - 1); checked_size_add below 1)
