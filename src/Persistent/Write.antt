-- ===== src/Persistent/Write.antt =====
-- The nodes of PersistentLazySegmentTree, and the two functions of
-- src/persistent_lazy_segment_tree.cpp that append to the arena: build and update.
use version_aware_lazy_segtr.Prelude.{
  ℕ, zero, suc, ◌+◌, ◌==◌, List, ltb, leb, covers, if◌then◌else◌, length, get_elem?,
}
use version_aware_lazy_segtr.Prelude.Int.{ℤ, pos}
use version_aware_lazy_segtr.Prelude.Result.{err, out_of_fuel, or_fault}
use version_aware_lazy_segtr.Prelude.Run.{Action, pure, lift, ◌>>=◌}
use version_aware_lazy_segtr.Policy.{checked_add}
use version_aware_lazy_segtr.Policy.SumAdd.{apply}
use version_aware_lazy_segtr.Size.{midpoint, inclusive_length}
use version_aware_lazy_segtr.Arena.{no_node, read, append}

pub record Node : Type 0 where
  pub left_child : ℕ
  pub right_child : ℕ
  pub sum : ℤ
  pub lazy : ℤ

abbrev pub node : ℕ → ℕ → ℤ → ℤ → Node
node l r s t = record { left_child = l; right_child = r; sum = s; lazy = t }

abbrev pub Arena : Type 0
Arena = List Node

unfoldable pub build : ℕ → List ℤ → (segment_left segment_right : ℕ) → Action Arena ℕ
unfolding append checked_add
build zero values segment_left segment_right = lift (err out_of_fuel)
build (suc fuel) values segment_left segment_right =
    if segment_left == segment_right
    then (do
      value ← lift (or_fault (get_elem? values segment_left))
      append (node no_node no_node value (pos 0)))
    else (do
      let middle = midpoint segment_left segment_right
      left_root ← build fuel values segment_left middle
      right_root ← build fuel values (middle + 1) segment_right
      left ← read left_root
      right ← read right_root
      sum ← lift (checked_add left.sum right.sum)
      append (node left_root right_root sum (pos 0)))

unfoldable pub update :
    ℕ → (node_index segment_left segment_right query_left query_right : ℕ) → ℤ → Action Arena ℕ
unfolding append checked_add apply inclusive_length
update zero node_index segment_left segment_right query_left query_right value =
    lift (err out_of_fuel)
update (suc fuel) node_index segment_left segment_right query_left query_right value = do
  current ← read node_index
  length ← lift (inclusive_length segment_left segment_right)
  if covers query_left query_right segment_left segment_right
      then (do
        sum ← lift (apply value current.sum length)
        lazy ← lift (checked_add current.lazy value)
        append (node current.left_child current.right_child sum lazy))
      else (do
        let middle = midpoint segment_left segment_right
        let go_left =
            update fuel current.left_child segment_left middle query_left query_right value
        let go_right =
            update fuel current.right_child (middle + 1) segment_right query_left query_right value
        new_left ← if leb query_left middle then go_left else pure current.left_child
        new_right ← if ltb middle query_right then go_right else pure current.right_child
        left ← read new_left
        right ← read new_right
        children ← lift (checked_add left.sum right.sum)
        sum ← lift (apply current.lazy children length)
        append (node new_left new_right sum current.lazy))
