-- ===== src/PointOnly.antt =====
-- PointOnlyPersistentSegmentTree of include/valseg/point_only_persistent_segment_tree.hpp and
-- src/point_only_persistent_segment_tree.cpp: an update copies the paths to every leaf of its range,
-- and shares the subtrees outside it.
pub mod Update
pub mod Refine
pub mod Count
use version_aware_lazy_segtr.Prelude.{ℕ, zero, suc, ◌+◌, ◌==◌, List, leb, ltb, if◌then◌else◌}
use version_aware_lazy_segtr.Prelude.Int.{ℤ}
use version_aware_lazy_segtr.Prelude.Result.{Result, err, out_of_fuel}
use version_aware_lazy_segtr.Prelude.Run.{Action, pure, lift, ◌>>=◌}
use version_aware_lazy_segtr.Policy.{checked_add}
use version_aware_lazy_segtr.Size.{midpoint}
use version_aware_lazy_segtr.Arena.{no_node, read, append}
use version_aware_lazy_segtr.Tagless
use version_aware_lazy_segtr.Tagless.{Arena, node, join, TaglessTree}

unfoldable pub point_only_update :
    ℕ → (node_index segment_left segment_right query_left query_right : ℕ) → ℤ → Action Arena ℕ
unfolding append checked_add join
point_only_update zero node_index segment_left segment_right query_left query_right value =
    lift (err out_of_fuel)
point_only_update (suc fuel) node_index segment_left segment_right query_left query_right value = do
  current ← read node_index
  if segment_left == segment_right
      then (do sum ← lift (checked_add current.sum value); append (node no_node no_node sum))
      else (do
        let middle = midpoint segment_left segment_right
        let go_left =
            point_only_update fuel current.left_child segment_left middle query_left query_right
              value
        let go_right =
            point_only_update fuel current.right_child (middle + 1) segment_right query_left
              query_right value
        new_left ← if leb query_left middle then go_left else pure current.left_child
        new_right ← if ltb middle query_right then go_right else pure current.right_child
        join new_left new_right)

-- The class and its other operations, which its source spells out as the full-copy tree does.
abbrev PointOnlyPersistentSegmentTree : Type 0
PointOnlyPersistentSegmentTree = TaglessTree

abbrev build : ℕ → List ℤ → (segment_left segment_right : ℕ) → Action Arena ℕ
build = Tagless.build

abbrev query :
    ℕ → Arena → (node_index segment_left segment_right query_left query_right : ℕ) → Result ℤ
query = Tagless.query

abbrev initialize : List ℤ → Action PointOnlyPersistentSegmentTree (Unit {0})
initialize = Tagless.initialize

abbrev pub range_add : (left right : ℕ) → ℤ → Action PointOnlyPersistentSegmentTree ℕ
range_add = Tagless.range_add point_only_update

abbrev range_sum : (version left right : ℕ) → PointOnlyPersistentSegmentTree → Result ℤ
range_sum = Tagless.range_sum

abbrev version_count : PointOnlyPersistentSegmentTree → ℕ
version_count = Tagless.version_count

abbrev size : PointOnlyPersistentSegmentTree → ℕ
size = Tagless.size

abbrev node_count : PointOnlyPersistentSegmentTree → ℕ
node_count = Tagless.node_count

abbrev validate_initialized : PointOnlyPersistentSegmentTree → Result (Unit {0})
validate_initialized = Tagless.validate_initialized

abbrev validate_version : ℕ → PointOnlyPersistentSegmentTree → Result (Unit {0})
validate_version = Tagless.validate_version

abbrev validate_range : (left right : ℕ) → PointOnlyPersistentSegmentTree → Result (Unit {0})
validate_range = Tagless.validate_range
