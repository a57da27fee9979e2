-- ===== src/Tagless/Nodes.antt =====
-- The nodes that src/full_copy_persistent_segment_tree.cpp and
-- src/point_only_persistent_segment_tree.cpp share, build and query included: the two files spell
-- them out alike. A node has no lazy tag.
use version_aware_lazy_segtr.Prelude.{
  ℕ, zero, suc, ◌+◌, ◌||◌, ◌==◌, List, ltb, covers, if◌then◌else◌, get_elem?,
}
use version_aware_lazy_segtr.Prelude.Int.{ℤ, pos}
use version_aware_lazy_segtr.Prelude.Result
use version_aware_lazy_segtr.Prelude.Result.{Result, ok, err, out_of_fuel, or_fault}
use version_aware_lazy_segtr.Prelude.Run.{Action, lift, ◌>>=◌}
use version_aware_lazy_segtr.Policy.{checked_add}
use version_aware_lazy_segtr.Size.{midpoint}
use version_aware_lazy_segtr.Arena.{no_node, read, append}

pub record Node : Type 0 where
  pub left_child : ℕ
  pub right_child : ℕ
  pub sum : ℤ

abbrev pub node : ℕ → ℕ → ℤ → Node
node l r s = record { left_child = l; right_child = r; sum = s }

abbrev pub Arena : Type 0
Arena = List Node

-- arena.push_back(Node{leftRoot, rightRoot, checkedAdd(arena[leftRoot].sum, arena[rightRoot].sum)})
unfoldable pub join : (left_root right_root : ℕ) → Action Arena ℕ
unfolding append checked_add
join left_root right_root = do
  left ← read left_root
  right ← read right_root
  sum ← lift (checked_add left.sum right.sum)
  append (node left_root right_root sum)

unfoldable pub build : ℕ → List ℤ → (segment_left segment_right : ℕ) → Action Arena ℕ
unfolding append join
build zero values segment_left segment_right = lift (err out_of_fuel)
build (suc fuel) values segment_left segment_right =
    if segment_left == segment_right
    then (do
      value ← lift (or_fault (get_elem? values segment_left))
      append (node no_node no_node value))
    else (do
      let middle = midpoint segment_left segment_right
      left_root ← build fuel values segment_left middle
      right_root ← build fuel values (middle + 1) segment_right
      join left_root right_root)

unfoldable pub query :
    ℕ → Arena → (node_index segment_left segment_right query_left query_right : ℕ) → Result ℤ
unfolding checked_add
query zero nodes node_index segment_left segment_right query_left query_right = err out_of_fuel
query (suc fuel) nodes node_index segment_left segment_right query_left query_right =
    let middle = midpoint segment_left segment_right in
    if ltb segment_right query_left || ltb query_right segment_left
    then ok (pos 0)
    else Result.◌>>=◌ (or_fault (get_elem? nodes node_index)) λ current.
      if covers query_left query_right segment_left segment_right
      then ok current.sum
      else Result.◌>>=◌
          (query fuel nodes current.left_child segment_left middle query_left query_right)
          λ a.
            Result.◌>>=◌
              (query fuel nodes current.right_child (middle + 1) segment_right query_left
                query_right)
              λ b. checked_add a b
