-- ===== src/Lazy.antt =====
-- LazySegmentTree of include/valseg/lazy_segment_tree.hpp and src/lazy_segment_tree.cpp: one
-- state, changed in place, in two vectors where the children of node are 2 node + 1 and 2 node + 2.
-- Each recursion takes fuel for its depth and is given the array size.
mod State
mod Write
mod Read
pub mod Room
pub mod Below
pub mod Holds
pub mod Fits
pub mod Preflight
pub mod Frame
pub mod Update
pub mod Query
pub mod Leaves
pub mod Build
pub mod Represents
pub mod Refine
pub mod Restart
pub use State.{
  LazySegmentTree, empty, zeros, element, assigned, store, store_sum, store_tag, sum_at, tag_at,
}
unfoldable pub use Write.{build, validate_update, update}
unfoldable pub use Read.{query, materialize}
use version_aware_lazy_segtr.Prelude.{
  ℕ, zero, suc, ◌+◌, ◌-◌, ◌*◌, ◌||◌, ◌==◌, List, [], ◌∷◌, ◌++◌, ltb, leb, covers, if◌then◌else◌,
  length, get_elem?, set,
}
use version_aware_lazy_segtr.Prelude.Int.{ℤ, pos}
use version_aware_lazy_segtr.Prelude.Result
use version_aware_lazy_segtr.Prelude.Result.{Result, ok, err, fault, out_of_fuel, or_fault}
use version_aware_lazy_segtr.Prelude.Run.{Run, done, thrown, Action, pure, lift, reads, ◌>>=◌, ◌>>◌}
use version_aware_lazy_segtr.Policy.{eq_ℤ, checked_add}
use version_aware_lazy_segtr.Policy.SumAdd.{apply}
use version_aware_lazy_segtr.Size.{midpoint, inclusive_length, lazy_storage_count}
use version_aware_lazy_segtr.Validation
use version_aware_lazy_segtr.Domain.{max_magnitude, validate_range_add}

-- The new sums of initialize, over a vector of zeros.
unfoldable pub build_replacement : List ℤ → ℕ → Run (List ℤ) (Unit {0})
unfolding build
build_replacement values storage_count =
    if length values == 0
    then done tt (zeros storage_count)
    else build (length values) values 0 0 (length values - 1) (zeros storage_count)

-- The swaps at the end of initialize, which a throw does not reach.
unfoldable pub install :
    List ℤ → ℕ → LazySegmentTree → Run (List ℤ) (Unit {0}) → Run LazySegmentTree (Unit {0})
unfolding max_magnitude
install values storage_count tree (done _ new_tree) = done tt (record {
  tree = new_tree;
  lazy = zeros storage_count;
  array_size = length values;
  numeric_domain = max_magnitude values;
})
install values storage_count tree (thrown e new_tree) = thrown e tree

unfoldable pub initialize : List ℤ → Action LazySegmentTree (Unit {0})
unfolding build_replacement install lazy_storage_count
initialize values = do
  storage_count ← lift (lazy_storage_count (length values))
  λ tree. install values storage_count tree (build_replacement values storage_count)

unfoldable pub validate_range : (left right : ℕ) → LazySegmentTree → Result (Unit {0})
unfolding Validation.validate_non_empty Validation.validate_range
validate_range left right tree =
    Result.◌>>◌ (Validation.validate_non_empty tree.array_size)
      (Validation.validate_range tree.array_size left right)

-- The traversal that rangeAdd hands to the guard.
unfoldable pub current_leaves : LazySegmentTree → Result (List ℤ)
unfolding materialize
current_leaves tree = materialize tree.array_size tree 0 0 (tree.array_size - 1) (pos 0) []

-- numericDomain.commit(bound)
abbrev pub commit : ℕ → Action LazySegmentTree (Unit {0})
commit bound tree = done tt (record tree { numeric_domain = bound })

unfoldable pub range_add : (left right : ℕ) → ℤ → Action LazySegmentTree (Unit {0})
unfolding validate_range validate_range_add current_leaves validate_update update
range_add left right value = do
  reads (validate_range left right)
  if eq_ℤ value (pos 0) then pure tt else (do
    bound ← reads (λ tree.
        validate_range_add tree.numeric_domain tree.array_size left right value
          (current_leaves tree))
    total ←
        reads
          (λ tree. validate_update tree.array_size tree 0 0 (tree.array_size - 1) left right value)
    λ tree.
        ((update tree.array_size 0 0 (tree.array_size - 1) left right value >> commit bound) tree))

unfoldable pub range_sum : (left right : ℕ) → LazySegmentTree → Result ℤ
unfolding validate_range query
range_sum left right tree =
    Result.◌>>◌ (validate_range left right tree)
      (query tree.array_size tree 0 0 (tree.array_size - 1) left right (pos 0))

abbrev pub size : LazySegmentTree → ℕ
size tree = tree.array_size
