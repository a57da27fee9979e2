-- ===== src/Policy/MinAdd.antt =====
-- MinAddPolicy of include/valseg/policy.hpp: range-add actions over range minima.
pub mod Laws
use version_aware_lazy_segtr.Prelude.{ℕ, ◌==◌, if◌then◌else◌}
use version_aware_lazy_segtr.Prelude.Int.{ℤ, pos, ltb_ℤ}
use version_aware_lazy_segtr.Prelude.Result.{Result, ok}
use version_aware_lazy_segtr.Policy.{checked_add, maximum}

unfoldable pub combine : ℤ → ℤ → ℤ
combine left right = if ltb_ℤ left right then left else right

abbrev pub aggregate_identity : ℤ
aggregate_identity = maximum

unfoldable pub compose : ℤ → ℤ → Result ℤ
unfolding checked_add
compose newer older = checked_add newer older

abbrev pub action_identity : ℤ
action_identity = pos 0

unfoldable pub apply : ℤ → ℤ → ℕ → Result ℤ
unfolding checked_add
apply action aggregate length = if length == 0 then ok aggregate else checked_add aggregate action
