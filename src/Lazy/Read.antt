-- ===== src/Lazy/Read.antt =====
-- query and materialize of src/lazy_segment_tree.cpp, which change nothing. Tags are accumulated on the
-- way down.
use version_aware_lazy_segtr.Prelude.{
  ℕ, zero, suc, ◌+◌, ◌*◌, ◌||◌, ◌==◌, List, [], ◌∷◌, ◌++◌, ltb, covers, if◌then◌else◌, length,
}
use version_aware_lazy_segtr.Prelude.Int.{ℤ, pos}
use version_aware_lazy_segtr.Prelude.Result.{◌>>=◌, Result, ok, err, out_of_fuel}
use version_aware_lazy_segtr.Policy.{checked_add}
use version_aware_lazy_segtr.Policy.SumAdd.{apply}
use version_aware_lazy_segtr.Size.{midpoint, inclusive_length}
use version_aware_lazy_segtr.Lazy.State.{LazySegmentTree, element}

unfoldable pub query :
    ℕ
    → LazySegmentTree
    → (node segment_left segment_right query_left query_right : ℕ) → ℤ
    → Result ℤ
unfolding checked_add apply inclusive_length
query zero tree node segment_left segment_right query_left query_right inherited_lazy =
    err out_of_fuel
query (suc fuel) tree node segment_left segment_right query_left query_right inherited_lazy =
    if ltb segment_right query_left || ltb query_right segment_left
    then ok (pos 0)
    else if covers query_left query_right segment_left segment_right
    then (do
      sum ← element tree.tree node
      length ← inclusive_length segment_left segment_right
      apply inherited_lazy sum length)
    else (do
      let middle = midpoint segment_left segment_right
      tag ← element tree.lazy node
      next_lazy ← checked_add inherited_lazy tag
      a ← query fuel tree (2 * node + 1) segment_left middle query_left query_right next_lazy
      b ← query fuel tree (2 * node + 2) (middle + 1) segment_right query_left query_right next_lazy
      checked_add a b)

-- The vector to which the leaves are appended is passed on and handed back.
unfoldable pub materialize :
    ℕ → LazySegmentTree → (node segment_left segment_right : ℕ) → ℤ → List ℤ → Result (List ℤ)
unfolding checked_add apply
materialize zero tree node segment_left segment_right inherited_lazy values = err out_of_fuel
materialize (suc fuel) tree node segment_left segment_right inherited_lazy values =
    if segment_left == segment_right
    then (do
      sum ← element tree.tree node
      value ← apply inherited_lazy sum 1
      ok (values ++ (value ∷ [])))
    else (do
      let middle = midpoint segment_left segment_right
      tag ← element tree.lazy node
      next_lazy ← checked_add inherited_lazy tag
      values ← materialize fuel tree (2 * node + 1) segment_left middle next_lazy values
      materialize fuel tree (2 * node + 2) (middle + 1) segment_right next_lazy values)
