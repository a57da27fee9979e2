-- ===== src/Tests/Pushed.antt =====
-- PushedLazyTree over SumAddPolicy and the array 1, 2, 3.
use version_aware_lazy_segtr.Prelude.{
  zero, suc, ◌*◌, ◌≤◌, ◌<◌, ◌≡◌, ◌⊎◌, refl, List, [], ◌∷◌, arith,
}
use version_aware_lazy_segtr.Prelude.Int.{ℤ, pos, negsuc, ◌+ℤ◌, ◌-ℤ◌, ◌*ℤ◌}
use version_aware_lazy_segtr.Prelude.Result.{IsOverflow}
use version_aware_lazy_segtr.Prelude.Run
use version_aware_lazy_segtr.Prelude.Run.{done, Ends}
use version_aware_lazy_segtr.Policy.{checked_add, checked_multiply, checked_length}
use version_aware_lazy_segtr.Policy.SumAdd
use version_aware_lazy_segtr.Size.{size_max}
use version_aware_lazy_segtr.PolicyTrees.Fold.{fold, applied}
use version_aware_lazy_segtr.PolicyTrees.Build.{of_list, AllFit}
use version_aware_lazy_segtr.PolicyTrees.Policies.{sum_add, sum_add_laws, sum_add_admits}
use version_aware_lazy_segtr.PolicyTrees.Pushed.{
  PushedLazyTree, empty, initialize, range_apply, range_aggregate,
}
use version_aware_lazy_segtr.PolicyTrees.Pushed.Refine.{
  Represents, Failed, range_apply-pushes, range_aggregate-pushes,
}
use version_aware_lazy_segtr.PolicyTrees.Pushed.Restart.{initialize-replaces}

abbrev values : List ℤ
values = pos 1 ∷ pos 2 ∷ pos 3 ∷ []

abbrev rest : List ℤ
rest = pos 0 ∷ pos 0 ∷ pos 0 ∷ pos 0 ∷ pos 0 ∷ pos 0 ∷ pos 0 ∷ []

abbrev three : PushedLazyTree ℤ ℤ
three = record {
  aggregates = pos 6 ∷ pos 3 ∷ pos 3 ∷ pos 1 ∷ pos 2 ∷ rest;
  tags = pos 0 ∷ pos 0 ∷ pos 0 ∷ pos 0 ∷ pos 0 ∷ rest;
  array_size = 3;
}

initialize-three : initialize sum_add values empty ≡ done tt three
unfolding initialize SumAdd.combine ◌+ℤ◌ ◌-ℤ◌
initialize-three = refl

-- The action is pushed at the node of the first two elements, and is pending on both of them.
abbrev five_less : PushedLazyTree ℤ ℤ
five_less = record {
  aggregates = negsuc 3 ∷ negsuc 6 ∷ pos 3 ∷ pos 1 ∷ pos 2 ∷ rest;
  tags = pos 0 ∷ pos 0 ∷ pos 0 ∷ negsuc 4 ∷ negsuc 4 ∷ rest;
  array_size = 3;
}

range_apply-five_less : range_apply sum_add 0 1 (negsuc 4) three ≡ done tt five_less
unfolding range_apply SumAdd.combine SumAdd.apply SumAdd.compose checked_add checked_multiply
    checked_length ◌+ℤ◌ ◌-ℤ◌ ◌*ℤ◌
range_apply-five_less = refl

values-AllFit : AllFit sum_add_laws values
values-AllFit zero below =
    let (_, fit, sound) = sum_add_admits (pos 1) (omega arith, omega arith) in (fit, sound)
values-AllFit (suc zero) below =
    let (_, fit, sound) = sum_add_admits (pos 2) (omega arith, omega arith) in (fit, sound)
values-AllFit (suc (suc zero)) below =
    let (_, fit, sound) = sum_add_admits (pos 3) (omega arith, omega arith) in (fit, sound)
values-AllFit (suc (suc (suc k))) below = absurd (omega arith)

initialize-replaces_example :
    Ends
      (λ w tree'.
        Represents sum_add_laws tree' (of_list sum_add_laws values) × (tree'.array_size ≡ 3))
      (λ e tree'.
        (tree' ≡ empty)
        × ((IsOverflow e × (size_max < 4 * 3)) ⊎ ((4 * 3 ≤ size_max) × sum_add_laws.Throws e)))
      (initialize sum_add values empty)
initialize-replaces_example = initialize-replaces sum_add_laws values empty values-AllFit

three-Represents : Represents sum_add_laws three (of_list sum_add_laws values)
three-Represents =
    (Run.value (initialize-replaces sum_add_laws values empty values-AllFit) initialize-three).0

range_apply-pushes_example :
    Ends
      (λ w tree'.
        Represents sum_add_laws tree'
          (applied sum_add_laws 0 1 (negsuc 4) (of_list sum_add_laws values))
        × (tree'.array_size ≡ 3))
      (Failed sum_add_laws three 0 1)
      (range_apply sum_add 0 1 (negsuc 4) three)
range_apply-pushes_example =
    range_apply-pushes sum_add_laws three (of_list sum_add_laws values) 0 1 (negsuc 4)
      three-Represents (sum_add_admits (negsuc 4) (omega arith, omega arith)).0

range_aggregate-pushes_example :
    Ends
      (λ c tree'.
        (c ≡ fold sum_add_laws.plus (of_list sum_add_laws values) 1 2)
        × Represents sum_add_laws tree' (of_list sum_add_laws values)
        × (tree'.array_size ≡ 3))
      (Failed sum_add_laws three 1 2)
      (range_aggregate sum_add 1 2 three)
range_aggregate-pushes_example =
    range_aggregate-pushes sum_add_laws three (of_list sum_add_laws values) 1 2 three-Represents
