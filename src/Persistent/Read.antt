-- ===== src/Persistent/Read.antt =====
-- The two functions of src/persistent_lazy_segment_tree.cpp that only read the arena: query and
-- materialize. Tags are accumulated on the way down.
use version_aware_lazy_segtr.Prelude.{
  ℕ, zero, suc, ◌+◌, ◌||◌, ◌==◌, List, [], ◌∷◌, ◌++◌, ltb, covers, if◌then◌else◌, get_elem?,
}
use version_aware_lazy_segtr.Prelude.Int.{ℤ, pos}
use version_aware_lazy_segtr.Prelude.Result.{Result, ok, err, out_of_fuel, or_fault, ◌>>=◌}
use version_aware_lazy_segtr.Policy.{checked_add}
use version_aware_lazy_segtr.Policy.SumAdd.{apply}
use version_aware_lazy_segtr.Size.{midpoint, inclusive_length}
use version_aware_lazy_segtr.Persistent.Write.{Arena}

unfoldable pub query :
    ℕ → Arena → (node_index segment_left segment_right query_left query_right : ℕ) → ℤ → Result ℤ
unfolding checked_add apply inclusive_length
query zero nodes node_index segment_left segment_right query_left query_right inherited_lazy =
    err out_of_fuel
query (suc fuel) nodes node_index segment_left segment_right query_left query_right inherited_lazy =
    if ltb segment_right query_left || ltb query_right segment_left then ok (pos 0) else do
      current ← or_fault (get_elem? nodes node_index)
      if covers query_left query_right segment_left segment_right
          then (do
            length ← inclusive_length segment_left segment_right
            apply inherited_lazy current.sum length)
          else (do
            let middle = midpoint segment_left segment_right
            next_lazy ← checked_add inherited_lazy current.lazy
            a ←
                query fuel nodes current.left_child segment_left middle query_left query_right
                  next_lazy
            b ←
                query fuel nodes current.right_child (middle + 1) segment_right query_left
                  query_right next_lazy
            checked_add a b)

-- The vector to which the leaves are appended is passed on and handed back.
unfoldable pub materialize :
    ℕ → Arena → (node_index segment_left segment_right : ℕ) → ℤ → List ℤ → Result (List ℤ)
unfolding checked_add apply
materialize zero nodes node_index segment_left segment_right inherited_lazy values = err out_of_fuel
materialize (suc fuel) nodes node_index segment_left segment_right inherited_lazy values = do
  current ← or_fault (get_elem? nodes node_index)
  if segment_left == segment_right
      then (do value ← apply inherited_lazy current.sum 1; ok (values ++ (value ∷ [])))
      else (do
        let middle = midpoint segment_left segment_right
        next_lazy ← checked_add inherited_lazy current.lazy
        values ← materialize fuel nodes current.left_child segment_left middle next_lazy values
        materialize fuel nodes current.right_child (middle + 1) segment_right next_lazy values)
