-- ===== src/Tests/PolicyTrees.antt =====
-- PathCopyingActionTree over SumAddPolicy, and over AffineSumModPolicy with both values of its flag.
use version_aware_lazy_segtr.Prelude.{
  ℕ, zero, suc, ◌≡◌, refl, Bool, true, false, List, [], ◌∷◌, arith, inr,
}
use version_aware_lazy_segtr.Prelude.Int.{ℤ, pos, negsuc, ◌+ℤ◌, ◌-ℤ◌, ◌*ℤ◌}
use version_aware_lazy_segtr.Prelude.Result.{Result, ok, Gives}
use version_aware_lazy_segtr.Prelude.Run
use version_aware_lazy_segtr.Prelude.Run.{Run, done, Ends, ◌>>=◌, ◌>>◌}
use version_aware_lazy_segtr.Policy.{checked_add, checked_multiply, checked_length}
use version_aware_lazy_segtr.Policy.SumAdd
use version_aware_lazy_segtr.Policy.AffineSumMod
use version_aware_lazy_segtr.Policy.AffineSumMod.{Action, action}
use version_aware_lazy_segtr.Arena.{no_node}
use version_aware_lazy_segtr.PolicyTrees.PathCopying.{
  node, PathCopyingActionTree, empty, initialize, range_apply, range_aggregate,
}
use version_aware_lazy_segtr.PolicyTrees.Build.{of_list, AllFit}
use version_aware_lazy_segtr.PolicyTrees.Represents.{Represents}
use version_aware_lazy_segtr.PolicyTrees.Refine.{Published, Rejected, range_apply-refines}
use version_aware_lazy_segtr.PolicyTrees.History.{Answered, Refused, range_aggregate-answers}
use version_aware_lazy_segtr.PolicyTrees.Restart.{Started, initialize-restarts_history}
use version_aware_lazy_segtr.PolicyTrees.PointMaterialized
use version_aware_lazy_segtr.PolicyTrees.PointMaterialized.{PointMaterializedPersistentTree}
use version_aware_lazy_segtr.PolicyTrees.PointMaterialized.Represents as Materialized
use version_aware_lazy_segtr.PolicyTrees.PointMaterialized.Refine as Bare
use version_aware_lazy_segtr.PolicyTrees.PointMaterialized.Refine.{range_apply-materializes}
use version_aware_lazy_segtr.PolicyTrees.PointMaterialized.History.{aggregates_agree}
use version_aware_lazy_segtr.PolicyTrees.PointMaterialized.Restart.{materialized_initialize}
use version_aware_lazy_segtr.PolicyTrees.Policies.{
  sum_add, sum_add_laws, sum_add_admits, sum_add-Commutes,
}
use version_aware_lazy_segtr.PolicyTrees.AffinePolicy.{affine, eq_action}

abbrev values : List ℤ
values = pos 1 ∷ pos 2 ∷ pos 3 ∷ []

abbrev three : PathCopyingActionTree ℤ ℤ
three = record {
  nodes =
      node no_node no_node (pos 1) (pos 0)
      ∷ node no_node no_node (pos 2) (pos 0)
      ∷ node 0 1 (pos 3) (pos 0)
      ∷ node no_node no_node (pos 3) (pos 0)
      ∷ node 2 3 (pos 6) (pos 0)
      ∷ [];
  roots = 4 ∷ [];
  array_size = 3;
}

initialize-three : initialize sum_add values empty ≡ done tt three
unfolding initialize SumAdd.combine ◌+ℤ◌ ◌-ℤ◌
initialize-three = refl

values-AllFit : AllFit sum_add_laws values
values-AllFit zero below =
    let (_, fit, sound) = sum_add_admits (pos 1) (omega arith, omega arith) in (fit, sound)
values-AllFit (suc zero) below =
    let (_, fit, sound) = sum_add_admits (pos 2) (omega arith, omega arith) in (fit, sound)
values-AllFit (suc (suc zero)) below =
    let (_, fit, sound) = sum_add_admits (pos 3) (omega arith, omega arith) in (fit, sound)
values-AllFit (suc (suc (suc k))) below = absurd (omega arith)

initialize-restarts_history_example :
    Ends
      (Started sum_add_laws values)
      (λ e tree'. (tree' ≡ empty) × sum_add_laws.Throws e)
      (initialize sum_add values empty)
initialize-restarts_history_example =
    initialize-restarts_history sum_add_laws values empty values-AllFit (omega arith)

three-Represents : Represents sum_add_laws three (of_list sum_add_laws values ∷ [])
three-Represents =
    (Run.value (initialize-restarts_history sum_add_laws values empty values-AllFit (omega arith))
      initialize-three).0

range_apply-refines_example :
    Ends
      (Published sum_add_laws three (of_list sum_add_laws values ∷ []) 0 1 (negsuc 4))
      (Rejected sum_add_laws three 0 1)
      (range_apply sum_add false 0 1 (negsuc 4) three)
range_apply-refines_example =
    range_apply-refines sum_add_laws false (inr sum_add-Commutes) three-Represents 0 1 (negsuc 4)
      (sum_add_admits (negsuc 4) (omega arith, omega arith)).0

range_aggregate-answers_example :
    Gives
      (Answered sum_add_laws three-Represents 0 1 2)
      (Refused sum_add_laws three-Represents 0 1 2)
      (range_aggregate sum_add 0 1 2 three)
range_aggregate-answers_example = range_aggregate-answers sum_add_laws three-Represents 0 1 2

-- Modulo 5, over two elements 1: doubling both, then adding 1 to the first, makes it 3. The tree that
-- pushes says so; one that retained the tag would apply the doubling last.
abbrev pair : List ℕ
pair = 1 ∷ 1 ∷ []

abbrev history : (pushes : Bool) → Run (PathCopyingActionTree ℕ Action) ℕ
history pushes =
    (initialize (affine 5) pair >>= λ u. do
      range_apply (affine 5) pushes 0 1 (action 5 2 0)
      range_apply (affine 5) pushes 0 0 (action 5 1 1))
      empty

abbrev first_element : Run (PathCopyingActionTree ℕ Action) ℕ → Result ℕ
first_element (done version tree) = range_aggregate (affine 5) version 0 0 tree
first_element (Run.thrown e tree) = Result.err e

copy_on_push-first : first_element (history true) ≡ ok 3
unfolding range_aggregate range_apply initialize eq_action AffineSumMod.compose AffineSumMod.combine
    AffineSumMod.apply
copy_on_push-first = refl

retained-first : first_element (history false) ≡ ok 4
unfolding range_aggregate range_apply initialize eq_action AffineSumMod.compose AffineSumMod.combine
    AffineSumMod.apply
retained-first = refl

-- The tree without tags over the same vector.
abbrev bare : PointMaterializedPersistentTree ℤ
bare = record {
  nodes =
      PointMaterialized.node no_node no_node (pos 1)
      ∷ PointMaterialized.node no_node no_node (pos 2)
      ∷ PointMaterialized.node 0 1 (pos 3)
      ∷ PointMaterialized.node no_node no_node (pos 3)
      ∷ PointMaterialized.node 2 3 (pos 6)
      ∷ [];
  roots = 4 ∷ [];
  array_size = 3;
}

initialize-bare : PointMaterialized.initialize sum_add values PointMaterialized.empty ≡ done tt bare
unfolding PointMaterialized.initialize SumAdd.combine ◌+ℤ◌ ◌-ℤ◌
initialize-bare = refl

bare-Represents : Materialized.Represents sum_add_laws bare (of_list sum_add_laws values ∷ [])
bare-Represents =
    (Run.value
      (materialized_initialize sum_add_laws values PointMaterialized.empty values-AllFit
        (omega arith))
      initialize-bare).0

range_apply-materializes_example :
    Ends
      (Bare.Published sum_add_laws bare (of_list sum_add_laws values ∷ []) 0 1 (negsuc 4))
      (Bare.Rejected sum_add_laws bare 0 1)
      (PointMaterialized.range_apply sum_add 0 1 (negsuc 4) bare)
range_apply-materializes_example =
    range_apply-materializes sum_add_laws bare-Represents 0 1 (negsuc 4)
      (sum_add_admits (negsuc 4) (omega arith, omega arith)).0

bare-sum : PointMaterialized.range_aggregate sum_add 0 0 2 bare ≡ ok (pos 6)
unfolding PointMaterialized.range_aggregate
bare-sum = refl

three-sum : range_aggregate sum_add 0 0 2 three ≡ ok (pos 6)
unfolding range_aggregate SumAdd.apply checked_multiply checked_length checked_add ◌+ℤ◌ ◌-ℤ◌ ◌*ℤ◌
three-sum = refl

aggregates_agree_example : pos 6 ≡ pos 6
aggregates_agree_example =
    aggregates_agree sum_add_laws bare-Represents 0 0 2 three (pos 6) (pos 6) three-Represents
      bare-sum three-sum
