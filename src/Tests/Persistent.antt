-- ===== src/Tests/Persistent.antt =====
-- PersistentLazySegmentTree over the array 1, 2, 3.
use version_aware_lazy_segtr.Prelude.{
  ◌+◌, zero, suc, ◌≡◌, refl, sym, ◌∙◌, ◌⊎◌, List, [], ◌∷◌, arith,
}
use version_aware_lazy_segtr.Prelude.Int.{ℤ, pos, negsuc, ◌+ℤ◌, ◌-ℤ◌, ◌*ℤ◌}
use version_aware_lazy_segtr.Prelude.Result.{ok, err, Gives, invalid_argument, overflow_error}
use version_aware_lazy_segtr.Prelude.Run
use version_aware_lazy_segtr.Prelude.Run.{done, thrown, Ends}
use version_aware_lazy_segtr.Policy.{checked_add}
use version_aware_lazy_segtr.Size.{canonical_node_count, tree_height, height_loop}
use version_aware_lazy_segtr.Segment.{AllLong}
use version_aware_lazy_segtr.Domain.{canonical_sum, validate_range_add}
use version_aware_lazy_segtr.BruteForce
use version_aware_lazy_segtr.BruteForce.{BruteForceArray}
use version_aware_lazy_segtr.Arena.{no_node, Extends}
use version_aware_lazy_segtr.Persistent.{
  node_count, node, PersistentLazySegmentTree, empty, build, update, query, build_replacement,
  install, initialize, validate_initialized, validate_version, validate_range, current_leaves,
  finish_update, try_update, range_add, range_sum,
}
use version_aware_lazy_segtr.Persistent.Represents.{Represents}
use version_aware_lazy_segtr.Persistent.Publish.{Published, Rejected}
use version_aware_lazy_segtr.Persistent.Refine.{range_add-refines}
use version_aware_lazy_segtr.Persistent.History.{Answered, Refused, range_sum_answers}
use version_aware_lazy_segtr.Persistent.Restart.{Restarted, Kept, initialize-restarts}
use version_aware_lazy_segtr.Persistent.Undo.{range_add_undone}
use version_aware_lazy_segtr.Persistent.Preserve.{range_add-preserves}
use version_aware_lazy_segtr.Frontier.{frontier_counts, counts_of, visited}
use version_aware_lazy_segtr.Persistent.Growth.Updates.{
  range_add_appends, Slow, range_add_node_count,
}
use version_aware_lazy_segtr.Persistent.Session.{
  Reached, constructed, initialized, updated, IsInStep, Reached-IsInStep, IsDocumented,
  range_add_throws_cleanly,
}

abbrev values : List ℤ
values = pos 1 ∷ pos 2 ∷ pos 3 ∷ []

abbrev three : PersistentLazySegmentTree
three = record {
  nodes =
      node no_node no_node (pos 1) (pos 0)
      ∷ node no_node no_node (pos 2) (pos 0)
      ∷ node 0 1 (pos 3) (pos 0)
      ∷ node no_node no_node (pos 3) (pos 0)
      ∷ node 2 3 (pos 6) (pos 0)
      ∷ [];
  roots = 4 ∷ [];
  array_size = 3;
  numeric_domain = 3;
}

abbrev sample : BruteForceArray
sample = record { versions = values ∷ [] }

initialize-three : initialize values empty ≡ done tt three
unfolding initialize install build_replacement build canonical_node_count ◌+ℤ◌ ◌-ℤ◌
initialize-three = refl

-- Adding -5 to the first two elements tags their common node, and shares its two leaves.
abbrev five_less : PersistentLazySegmentTree
five_less = record {
  nodes =
      node no_node no_node (pos 1) (pos 0)
      ∷ node no_node no_node (pos 2) (pos 0)
      ∷ node 0 1 (pos 3) (pos 0)
      ∷ node no_node no_node (pos 3) (pos 0)
      ∷ node 2 3 (pos 6) (pos 0)
      ∷ node 0 1 (negsuc 6) (negsuc 4)
      ∷ node 5 3 (negsuc 3) (pos 0)
      ∷ [];
  roots = 4 ∷ 6 ∷ [];
  array_size = 3;
  numeric_domain = 8;
}

range_add-five_less : range_add 0 1 (negsuc 4) three ≡ done 1 five_less
unfolding range_add validate_initialized validate_range current_leaves validate_range_add try_update
    finish_update update ◌+ℤ◌ ◌-ℤ◌ ◌*ℤ◌
range_add-five_less = refl

range_sum-five_less :
    (range_sum 1 1 2 five_less ≡ ok (pos 0)) × (range_sum 0 1 2 five_less ≡ ok (pos 5))
unfolding range_sum validate_initialized validate_version validate_range query ◌+ℤ◌ ◌-ℤ◌ ◌*ℤ◌
range_sum-five_less = (refl, refl)

values-AllLong : AllLong values
values-AllLong zero h = omega arith
values-AllLong (suc zero) h = omega arith
values-AllLong (suc (suc zero)) h = omega arith
values-AllLong (suc (suc (suc k))) h = absurd (omega arith)

initialize-restarts_example :
    Ends
      (Restarted values BruteForce.empty)
      (Kept values BruteForce.empty empty)
      (initialize values empty)
initialize-restarts_example =
    initialize-restarts values values-AllLong (omega arith) empty BruteForce.empty

accepted : BruteForce.initialize values BruteForce.empty ≡ ok sample
unfolding BruteForce.initialize canonical_sum checked_add ◌+ℤ◌ ◌-ℤ◌
accepted = refl

sample-Represents : Represents three sample
sample-Represents =
    let (array, ran, rep) = Run.value initialize-restarts_example initialize-three in
    let same : array ≡ sample = same_array (sym ran ∙ accepted) in rw same at rep
  where
    same_array : {a b : BruteForceArray} → ok a ≡ ok b → a ≡ b
    same_array h = cc

three-Reached : Reached three
three-Reached = initialized values constructed values-AllLong (omega arith) initialize-three

range_add-refines_example :
    Ends
      (Published three sample 0 1 (negsuc 4))
      (Rejected three 0 1)
      (range_add 0 1 (negsuc 4) three)
range_add-refines_example = range_add-refines sample-Represents 0 1 (negsuc 4) (omega arith)

range_sum_answers_example :
    Gives (Answered sample 0 1 2) (Refused three 0 1 2) (range_sum 0 1 2 three)
range_sum_answers_example = range_sum_answers sample-Represents 0 1 2

range_add-preserves_example :
    Ends
      (λ number tree'. range_sum 0 0 2 tree' ≡ range_sum 0 0 2 three)
      (λ e tree'. range_sum 0 0 2 tree' ≡ range_sum 0 0 2 three)
      (range_add 0 1 (negsuc 4) three)
range_add-preserves_example =
    range_add-preserves sample-Represents 0 1 (negsuc 4) (omega arith) 0 0 2 (omega arith)

Reached-IsInStep_example : IsInStep five_less
Reached-IsInStep_example =
    Reached-IsInStep (updated 0 1 (negsuc 4) 1 three-Reached (omega arith) range_add-five_less)

-- Adding 5 again leaves a tag of 0.
abbrev five_back : PersistentLazySegmentTree
five_back = record {
  nodes =
      node no_node no_node (pos 1) (pos 0)
      ∷ node no_node no_node (pos 2) (pos 0)
      ∷ node 0 1 (pos 3) (pos 0)
      ∷ node no_node no_node (pos 3) (pos 0)
      ∷ node 2 3 (pos 6) (pos 0)
      ∷ node 0 1 (negsuc 6) (negsuc 4)
      ∷ node 5 3 (negsuc 3) (pos 0)
      ∷ node 0 1 (pos 3) (pos 0)
      ∷ node 7 3 (pos 6) (pos 0)
      ∷ [];
  roots = 4 ∷ 6 ∷ 8 ∷ [];
  array_size = 3;
  numeric_domain = 13;
}

range_add-five_back : range_add 0 1 (pos 0 -ℤ negsuc 4) five_less ≡ done 2 five_back
unfolding range_add validate_initialized validate_range current_leaves validate_range_add try_update
    finish_update update ◌+ℤ◌ ◌-ℤ◌ ◌*ℤ◌
range_add-five_back = refl

range_sum-three : range_sum 0 1 2 three ≡ ok (pos 5)
unfolding range_sum validate_initialized validate_version validate_range query ◌+ℤ◌ ◌-ℤ◌ ◌*ℤ◌
range_sum-three = refl

range_add_undone_example :
    (range_sum 2 1 2 five_back ≡ ok (pos 5)) ⊎ (range_sum 2 1 2 five_back ≡ err overflow_error)
unfolding ◌-ℤ◌
range_add_undone_example =
    range_add_undone three-Reached 0 1 (negsuc 4) (omega arith) (omega arith) range_add-five_less
      range_add-five_back 1 2 (pos 5) range_sum-three

reversed_range : range_add 2 1 (pos 1) three ≡ thrown invalid_argument three
unfolding range_add validate_initialized validate_range
reversed_range = refl

range_add_throws_cleanly_example : (three ≡ three) × IsDocumented invalid_argument
range_add_throws_cleanly_example =
    range_add_throws_cleanly three-Reached 2 1 (pos 1) invalid_argument (omega arith) reversed_range

three_levels : tree_height 3 ≡ ok 2
unfolding tree_height height_loop
three_levels = refl

range_add_node_count_example : Slow three 9 (range_add 0 1 (negsuc 4) three)
range_add_node_count_example =
    range_add_node_count three 2 0 1 (negsuc 4) (omega arith) three_levels

two_visits : frontier_counts 3 0 1 ≡ ok (counts_of 1 1)
unfolding frontier_counts
two_visits = refl

range_add_appends_example :
    Ends
      (λ version tree'. Extends three.nodes tree'.nodes × (node_count tree' ≡ node_count three + 2))
      (λ e tree'. tree' ≡ three)
      (range_add 0 1 (negsuc 4) three)
unfolding visited
range_add_appends_example =
    range_add_appends three 0 1 2 (negsuc 4) (counts_of 1 1) (omega arith) two_visits refl
