-- ===== src/Policy/SumAdd.antt =====
-- SumAddPolicy of include/valseg/policy.hpp: range-add actions over range sums.
pub mod Exact
use version_aware_lazy_segtr.Prelude.{ℕ}
use version_aware_lazy_segtr.Prelude.Int.{ℤ, pos}
use version_aware_lazy_segtr.Prelude.Result.{Result, ◌>>=◌}
use version_aware_lazy_segtr.Policy.{checked_add, checked_multiply, checked_length}

unfoldable pub combine : ℤ → ℤ → Result ℤ
unfolding checked_add
combine left right = checked_add left right

abbrev pub aggregate_identity : ℤ
aggregate_identity = pos 0

unfoldable pub compose : ℤ → ℤ → Result ℤ
unfolding checked_add
compose newer older = checked_add newer older

abbrev pub action_identity : ℤ
action_identity = pos 0

unfoldable pub apply : ℤ → ℤ → ℕ → Result ℤ
unfolding checked_add checked_multiply checked_length
apply action aggregate length = do
  signed ← checked_length length
  product ← checked_multiply action signed
  checked_add aggregate product
