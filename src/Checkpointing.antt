-- ===== src/Checkpointing.antt =====
-- CheckpointingSegmentTree of include/valseg/checkpointing_segment_tree.hpp and
-- src/checkpointing_segment_tree.cpp: one live tree changed in place, a log of the updates, and
-- copies of the tree at the multiples of an interval.
pub mod Nodes
mod State
mod Write
pub mod Holds
pub mod Layout
pub mod Query
pub mod Leaves
pub mod Fits
pub mod Preflight
pub mod Update
pub mod Build
pub mod Represents
pub mod Written
pub mod Publish
pub mod Commit
pub mod Refine
pub mod History
pub mod Restart
pub mod Schedule
pub mod Replay
pub use State.{UpdateEvent, update_event, Checkpoint, checkpoint, CheckpointingSegmentTree, empty}
pub use Write.{update_all}
unfoldable pub use Write.{
  append_event, take_copy, update_live, on_back, update_copy, update_nodes, write,
}
use version_aware_lazy_segtr.Prelude.{
  ℕ, zero, suc, ◌+◌, ◌-◌, ◌*◌, ◌/◌, ◌%◌, ◌==◌, max, min, List, [], ◌∷◌, ◌++◌, leb, if◌then◌else◌,
  length, get_elem?,
}
use version_aware_lazy_segtr.Prelude.Int.{ℤ, pos}
use version_aware_lazy_segtr.Prelude.Result
use version_aware_lazy_segtr.Prelude.Result.{Result, ok, err, invalid_argument, or_fault, fault}
use version_aware_lazy_segtr.Prelude.Run.{
  Run, done, thrown, Action, pure, lift, reads, and_then, ◌>>=◌, ◌>>◌,
}
use version_aware_lazy_segtr.Policy.{eq_ℤ}
use version_aware_lazy_segtr.Policy.SumAdd.{apply}
use version_aware_lazy_segtr.Size.{
  canonical_node_count, inclusive_length, checked_size_add, checked_size_multiply,
}
use version_aware_lazy_segtr.Validation
use version_aware_lazy_segtr.Domain.{max_magnitude, validate_range_add}
use version_aware_lazy_segtr.Checkpointing.Nodes.{
  Node, blank_nodes, build, update, validate_update, query, materialize,
}

-- The new live tree of initialize.
unfoldable pub build_live : List ℤ → Run (List Node) (Unit {0})
unfolding build
build_live values =
    if length values == 0
    then done tt []
    else and_then (lift (canonical_node_count (length values)) [])
        λ count. λ nodes. build (length values) values 0 0 (length values - 1) (blank_nodes count)

-- The end of initialize, which a throw does not reach.
unfoldable pub install :
    List ℤ
    → ℕ
    → CheckpointingSegmentTree
    → Run (List Node) (Unit {0})
    → Run CheckpointingSegmentTree (Unit {0})
unfolding max_magnitude
install values checkpoint_interval tree (done _ new_live) = done tt (record {
  live = new_live;
  events = [];
  checkpoints = checkpoint 0 new_live ∷ [];
  interval = checkpoint_interval;
  array_size = length values;
  numeric_domain = max_magnitude values;
})
install values checkpoint_interval tree (thrown e new_live) = thrown e tree

unfoldable pub initialize : List ℤ → ℕ → Action CheckpointingSegmentTree (Unit {0})
unfolding build_live install
initialize values checkpoint_interval tree =
    if checkpoint_interval == 0
    then thrown invalid_argument tree
    else install values checkpoint_interval tree (build_live values)

unfoldable pub validate_initialized : CheckpointingSegmentTree → Result (Unit {0})
unfolding Validation.validate_initialized
validate_initialized tree = Validation.validate_initialized (length tree.checkpoints)

unfoldable pub validate_version : ℕ → CheckpointingSegmentTree → Result (Unit {0})
unfolding Validation.validate_version
validate_version version tree = Validation.validate_version version (length tree.events + 1)

unfoldable pub validate_range : (left right : ℕ) → CheckpointingSegmentTree → Result (Unit {0})
unfolding Validation.validate_non_empty Validation.validate_range
validate_range left right tree =
    Result.◌>>◌ (Validation.validate_non_empty tree.array_size)
      (Validation.validate_range tree.array_size left right)

-- The traversal that rangeAdd hands to the guard.
unfoldable pub current_leaves : CheckpointingSegmentTree → Result (List ℤ)
unfolding materialize
current_leaves tree = materialize tree.array_size tree.live 0 0 (tree.array_size - 1) (pos 0) []

-- What rangeAdd calculates before its first write: the new magnitude bound.
unfoldable pub preflight : (left right : ℕ) → ℤ → CheckpointingSegmentTree → Result ℕ
unfolding validate_range_add current_leaves validate_update
preflight left right value tree =
    if eq_ℤ value (pos 0)
    then ok 0
    else (Result.◌>>=◌
        (validate_range_add tree.numeric_domain tree.array_size left right value
          (current_leaves tree))
        λ bound.
          Result.◌>>=◌
            (validate_update tree.array_size tree.live 0 0 (tree.array_size - 1) left right value)
            λ total. ok bound)

unfoldable pub range_add : (left right : ℕ) → ℤ → Action CheckpointingSegmentTree ℕ
unfolding validate_initialized validate_range preflight write checked_size_add
range_add left right value = do
  reads validate_initialized
  reads (validate_range left right)
  version ← reads (λ tree. checked_size_add (length tree.events) 1)
  bound ← reads (preflight left right value)
  write version left right value bound

-- One round of the replay: the delta once for each element that an event shares with the range.
unfoldable pub project : (left right : ℕ) → UpdateEvent → ℤ → Result ℤ
unfolding apply inclusive_length
project left right event sum =
    let overlap_left = max left event.left in
    let overlap_right = min right event.right in
    if leb overlap_left overlap_right
    then (Result.◌>>=◌ (inclusive_length overlap_left overlap_right)
        λ length. apply event.value sum length)
    else ok sum

-- The loop for (i = base.version; i < version; ++i), with the rounds that are left.
unfoldable pub replay : ℕ → ℕ → (left right : ℕ) → List UpdateEvent → ℤ → Result ℤ
unfolding project
replay zero i left right events sum = ok sum
replay (suc rounds) i left right events sum = Result.◌>>=◌ (or_fault (get_elem? events i)) λ event.
    Result.◌>>=◌ (project left right event sum) λ next. replay rounds (i + 1) left right events next

unfoldable pub range_sum : (version left right : ℕ) → CheckpointingSegmentTree → Result ℤ
unfolding validate_initialized validate_version validate_range query replay
range_sum version left right tree = Result.◌>>◌ (validate_initialized tree) (
    Result.◌>>◌ (validate_version version tree) (
      Result.◌>>◌ (validate_range left right tree) (
        if version == length tree.events
        then query tree.array_size tree.live 0 0 (tree.array_size - 1) left right (pos 0)
        else (Result.◌>>=◌ (or_fault (get_elem? tree.checkpoints (version / tree.interval))) λ base.
            Result.◌>>=◌
              (query tree.array_size base.nodes 0 0 (tree.array_size - 1) left right (pos 0))
              λ sum. replay (version - base.version) base.version left right tree.events sum))))

unfoldable pub version_count : CheckpointingSegmentTree → Result ℕ
unfolding checked_size_add
version_count tree =
    if length tree.checkpoints == 0 then ok 0 else checked_size_add (length tree.events) 1

abbrev pub size : CheckpointingSegmentTree → ℕ
size tree = tree.array_size

unfoldable pub node_count : CheckpointingSegmentTree → Result ℕ
unfolding checked_size_add checked_size_multiply
node_count tree =
    Result.◌>>=◌ (checked_size_multiply (length tree.checkpoints) (length tree.live)) λ copied.
      Result.◌>>=◌ (checked_size_add (length tree.live) copied)
        λ nodes. checked_size_add nodes (length tree.events)

abbrev pub checkpoint_count : CheckpointingSegmentTree → ℕ
checkpoint_count tree = length tree.checkpoints
