-- ===== src/Tests/Lazy.antt =====
-- LazySegmentTree over the array 1, 2, 3.
use version_aware_lazy_segtr.Prelude.{zero, suc, ◌≡◌, refl, List, [], ◌∷◌, arith}
use version_aware_lazy_segtr.Prelude.Int.{ℤ, pos, negsuc, ◌+ℤ◌, ◌-ℤ◌, ◌*ℤ◌}
use version_aware_lazy_segtr.Prelude.Result.{ok, Gives, IsOverflow, err}
use version_aware_lazy_segtr.Prelude.{◌⊎◌}
use version_aware_lazy_segtr.Prelude.Run
use version_aware_lazy_segtr.Prelude.Run.{done, Ends}
use version_aware_lazy_segtr.Size.{lazy_storage_count}
use version_aware_lazy_segtr.Segment.{AllLong, seg_sum, of_list}
use version_aware_lazy_segtr.Domain.{validate_range_add}
use version_aware_lazy_segtr.Policy.Arithmetic.{Exact}
use version_aware_lazy_segtr.Lazy.{
  LazySegmentTree, empty, build, update, validate_update, build_replacement, install, initialize,
  validate_range, current_leaves, range_add, range_sum, query,
}
use version_aware_lazy_segtr.Lazy.Represents.{Represents, Changed}
use version_aware_lazy_segtr.Lazy.Refine.{Unchanged, lazy_range_add_refines, lazy_range_sum_answers}
use version_aware_lazy_segtr.Lazy.Restart.{Replaced, Kept, lazy_initialize_replaces}

abbrev values : List ℤ
values = pos 1 ∷ pos 2 ∷ pos 3 ∷ []

abbrev rest : List ℤ
rest = pos 0 ∷ pos 0 ∷ pos 0 ∷ pos 0 ∷ pos 0 ∷ pos 0 ∷ pos 0 ∷ []

abbrev three : LazySegmentTree
three = record {
  tree = pos 6 ∷ pos 3 ∷ pos 3 ∷ pos 1 ∷ pos 2 ∷ rest;
  lazy = pos 0 ∷ pos 0 ∷ pos 0 ∷ pos 0 ∷ pos 0 ∷ rest;
  array_size = 3;
  numeric_domain = 3;
}

initialize-three : initialize values empty ≡ done tt three
unfolding initialize install build_replacement build lazy_storage_count ◌+ℤ◌ ◌-ℤ◌
initialize-three = refl

-- Adding -5 to the first two elements tags their common node.
abbrev five_less : LazySegmentTree
five_less = record {
  tree = negsuc 3 ∷ negsuc 6 ∷ pos 3 ∷ pos 1 ∷ pos 2 ∷ rest;
  lazy = pos 0 ∷ negsuc 4 ∷ pos 0 ∷ pos 0 ∷ pos 0 ∷ rest;
  array_size = 3;
  numeric_domain = 8;
}

range_add-five_less : range_add 0 1 (negsuc 4) three ≡ done tt five_less
unfolding range_add validate_range current_leaves validate_range_add validate_update update ◌+ℤ◌
    ◌-ℤ◌ ◌*ℤ◌
range_add-five_less = refl

range_sum-five_less : range_sum 1 2 five_less ≡ ok (pos 0)
unfolding range_sum validate_range query ◌+ℤ◌ ◌-ℤ◌ ◌*ℤ◌
range_sum-five_less = refl

values-AllLong : AllLong values
values-AllLong zero h = omega arith
values-AllLong (suc zero) h = omega arith
values-AllLong (suc (suc zero)) h = omega arith
values-AllLong (suc (suc (suc k))) h = absurd (omega arith)

lazy_initialize_replaces_example :
    Ends (λ u tree'. Replaced values tree') (Kept values empty) (initialize values empty)
lazy_initialize_replaces_example = lazy_initialize_replaces values values-AllLong empty

three-Represents : Represents three values
three-Represents = (Run.value lazy_initialize_replaces_example initialize-three).1

lazy_range_add_refines_example :
    Ends
      (λ u tree'. Changed values 0 1 (negsuc 4) tree')
      (Unchanged three 0 1)
      (range_add 0 1 (negsuc 4) three)
lazy_range_add_refines_example =
    lazy_range_add_refines three-Represents 0 1 (negsuc 4) (omega arith)

lazy_range_sum_answers_example :
    Gives
      (Exact (seg_sum (of_list values) 1 2))
      (λ e.
        (validate_range 1 2 three ≡ err e) ⊎ ((validate_range 1 2 three ≡ ok tt) × IsOverflow e))
      (range_sum 1 2 three)
lazy_range_sum_answers_example = lazy_range_sum_answers three-Represents 1 2
