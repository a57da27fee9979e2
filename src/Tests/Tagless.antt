-- ===== src/Tests/Tagless.antt =====
-- FullCopyPersistentSegmentTree and PointOnlyPersistentSegmentTree over the array 1, 2, 3.
use version_aware_lazy_segtr.Prelude.{◌+◌, zero, suc, ◌≡◌, refl, sym, ◌∙◌, List, [], ◌∷◌, arith}
use version_aware_lazy_segtr.Prelude.Int.{ℤ, pos, ◌+ℤ◌, ◌-ℤ◌}
use version_aware_lazy_segtr.Prelude.Result.{ok, Gives}
use version_aware_lazy_segtr.Prelude.Run
use version_aware_lazy_segtr.Prelude.Run.{done, Ends}
use version_aware_lazy_segtr.Policy.{checked_add}
use version_aware_lazy_segtr.Size.{canonical_node_count}
use version_aware_lazy_segtr.Segment.{AllLong}
use version_aware_lazy_segtr.Domain.{canonical_sum}
use version_aware_lazy_segtr.BruteForce
use version_aware_lazy_segtr.BruteForce.{BruteForceArray}
use version_aware_lazy_segtr.Arena.{no_node}
use version_aware_lazy_segtr.Tagless
use version_aware_lazy_segtr.Tagless.{
  node, TaglessTree, empty, build, join, build_replacement, install, initialize,
  validate_initialized, validate_range, try_update, finish_update, range_sum,
}
use version_aware_lazy_segtr.Tagless.Represents.{Represents}
use version_aware_lazy_segtr.Tagless.Publish.{Published, Rejected}
use version_aware_lazy_segtr.Tagless.Restart.{Restarted, Kept, tagless_initialize_restarts}
use version_aware_lazy_segtr.Tagless.History.{Answered, Refused, tagless_range_sum_answers}
use version_aware_lazy_segtr.FullCopy
use version_aware_lazy_segtr.FullCopy.{full_copy_update, leaf_value}
use version_aware_lazy_segtr.FullCopy.Refine.{full_copy_refines}
use version_aware_lazy_segtr.PointOnly
use version_aware_lazy_segtr.PointOnly.{point_only_update}
use version_aware_lazy_segtr.PointOnly.Count.{point_only_node_count}
use version_aware_lazy_segtr.Frontier.{intersecting_nodes}
use version_aware_lazy_segtr.PointOnly.Refine.{point_only_refines}

abbrev values : List ℤ
values = pos 1 ∷ pos 2 ∷ pos 3 ∷ []

abbrev three : TaglessTree
three = record {
  nodes =
      node no_node no_node (pos 1)
      ∷ node no_node no_node (pos 2)
      ∷ node 0 1 (pos 3)
      ∷ node no_node no_node (pos 3)
      ∷ node 2 3 (pos 6)
      ∷ [];
  roots = 4 ∷ [];
  array_size = 3;
}

abbrev sample : BruteForceArray
sample = record { versions = values ∷ [] }

initialize-three : initialize values empty ≡ done tt three
unfolding initialize install build_replacement build join canonical_node_count ◌+ℤ◌ ◌-ℤ◌
initialize-three = refl

-- Adding 10 to the last element: the full copy repeats the first two leaves, the point-only tree
-- shares them.
abbrev copied : TaglessTree
copied = record {
  nodes =
      node no_node no_node (pos 1)
      ∷ node no_node no_node (pos 2)
      ∷ node 0 1 (pos 3)
      ∷ node no_node no_node (pos 3)
      ∷ node 2 3 (pos 6)
      ∷ node no_node no_node (pos 1)
      ∷ node no_node no_node (pos 2)
      ∷ node 5 6 (pos 3)
      ∷ node no_node no_node (pos 13)
      ∷ node 7 8 (pos 16)
      ∷ [];
  roots = 4 ∷ 9 ∷ [];
  array_size = 3;
}

range_add-copied : FullCopy.range_add 2 2 (pos 10) three ≡ done 1 copied
unfolding Tagless.range_add validate_initialized validate_range try_update finish_update
    full_copy_update leaf_value join ◌+ℤ◌ ◌-ℤ◌
range_add-copied = refl

abbrev shared : TaglessTree
shared = record {
  nodes =
      node no_node no_node (pos 1)
      ∷ node no_node no_node (pos 2)
      ∷ node 0 1 (pos 3)
      ∷ node no_node no_node (pos 3)
      ∷ node 2 3 (pos 6)
      ∷ node no_node no_node (pos 13)
      ∷ node 2 5 (pos 16)
      ∷ [];
  roots = 4 ∷ 6 ∷ [];
  array_size = 3;
}

range_add-shared : PointOnly.range_add 2 2 (pos 10) three ≡ done 1 shared
unfolding Tagless.range_add validate_initialized validate_range try_update finish_update
    point_only_update join ◌+ℤ◌ ◌-ℤ◌
range_add-shared = refl

values-AllLong : AllLong values
values-AllLong zero h = omega arith
values-AllLong (suc zero) h = omega arith
values-AllLong (suc (suc zero)) h = omega arith
values-AllLong (suc (suc (suc k))) h = absurd (omega arith)

tagless_initialize_restarts_example :
    Ends
      (Restarted values BruteForce.empty)
      (Kept values BruteForce.empty empty)
      (initialize values empty)
tagless_initialize_restarts_example =
    tagless_initialize_restarts values values-AllLong (omega arith) empty BruteForce.empty

accepted : BruteForce.initialize values BruteForce.empty ≡ ok sample
unfolding BruteForce.initialize canonical_sum checked_add ◌+ℤ◌ ◌-ℤ◌
accepted = refl

sample-Represents : Represents three sample
sample-Represents =
    let (array, ran, rep) = Run.value tagless_initialize_restarts_example initialize-three in
    let same : array ≡ sample = same_array (sym ran ∙ accepted) in rw same at rep
  where
    same_array : {a b : BruteForceArray} → ok a ≡ ok b → a ≡ b
    same_array h = cc

full_copy_refines_example :
    Ends
      (Published three sample 2 2 (pos 10))
      (Rejected three sample 2 2 (pos 10))
      (FullCopy.range_add 2 2 (pos 10) three)
full_copy_refines_example = full_copy_refines sample-Represents 2 2 (pos 10) (omega arith)

point_only_refines_example :
    Ends
      (Published three sample 2 2 (pos 10))
      (Rejected three sample 2 2 (pos 10))
      (PointOnly.range_add 2 2 (pos 10) three)
point_only_refines_example = point_only_refines sample-Represents 2 2 (pos 10) (omega arith)

tagless_range_sum_answers_example :
    Gives (Answered sample 0 1 2) (Refused three 0 1 2) (range_sum 0 1 2 three)
tagless_range_sum_answers_example = tagless_range_sum_answers sample-Represents 0 1 2

two_intersect : intersecting_nodes 3 2 2 ≡ ok 2
unfolding intersecting_nodes
two_intersect = refl

point_only_node_count_example :
    Ends
      (λ version tree'. Tagless.node_count tree' ≡ Tagless.node_count three + 2)
      (λ e tree'. Unit {0})
      (PointOnly.range_add 2 2 (pos 10) three)
point_only_node_count_example =
    point_only_node_count three 2 2 2 (pos 10) (omega arith) two_intersect refl
