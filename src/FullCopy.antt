-- ===== src/FullCopy.antt =====
-- FullCopyPersistentSegmentTree of include/valseg/full_copy_persistent_segment_tree.hpp and
-- src/full_copy_persistent_segment_tree.cpp: an update copies every node of the newest version.
pub mod Update
pub mod Refine
pub mod Count
use version_aware_lazy_segtr.Prelude.{ℕ, zero, suc, ◌+◌, ◌==◌, List, covers, if◌then◌else◌}
use version_aware_lazy_segtr.Prelude.Int.{ℤ}
use version_aware_lazy_segtr.Prelude.Result.{Result, ok, err, out_of_fuel}
use version_aware_lazy_segtr.Prelude.Run.{Action, lift, ◌>>=◌}
use version_aware_lazy_segtr.Policy.{checked_add}
use version_aware_lazy_segtr.Size.{midpoint}
use version_aware_lazy_segtr.Arena.{no_node, read, append}
use version_aware_lazy_segtr.Tagless
use version_aware_lazy_segtr.Tagless.{Arena, node, join, TaglessTree}

-- newValue at a leaf: updated inside the range, and copied outside it.
unfoldable pub leaf_value : (segment query_left query_right : ℕ) → (sum value : ℤ) → Result ℤ
unfolding checked_add
leaf_value segment query_left query_right sum value =
    if covers query_left query_right segment segment then checked_add sum value else ok sum

unfoldable pub full_copy_update :
    ℕ → (node_index segment_left segment_right query_left query_right : ℕ) → ℤ → Action Arena ℕ
unfolding append leaf_value join
full_copy_update zero node_index segment_left segment_right query_left query_right value =
    lift (err out_of_fuel)
full_copy_update (suc fuel) node_index segment_left segment_right query_left query_right value = do
  current ← read node_index
  if segment_left == segment_right
      then (do
        new_value ← lift (leaf_value segment_left query_left query_right current.sum value)
        append (node no_node no_node new_value))
      else (do
        let middle = midpoint segment_left segment_right
        new_left ←
            full_copy_update fuel current.left_child segment_left middle query_left query_right
              value
        new_right ←
            full_copy_update fuel current.right_child (middle + 1) segment_right query_left
              query_right value
        join new_left new_right)

abbrev pub range_add : (left right : ℕ) → ℤ → Action TaglessTree ℕ
range_add = Tagless.range_add full_copy_update
