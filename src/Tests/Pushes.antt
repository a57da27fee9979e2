-- ===== src/Tests/Pushes.antt =====
-- A copy-on-push tree and PushCountingModel over three elements, with SumAddPolicy.
use version_aware_lazy_segtr.Prelude.{◌+◌, ◌≤◌, ◌≡◌, refl, true, false, List, [], ◌∷◌, arith}
use version_aware_lazy_segtr.Prelude.Int.{ℤ, pos, ◌+ℤ◌, ◌-ℤ◌, ◌*ℤ◌}
use version_aware_lazy_segtr.Prelude.Result.{ok, err, invalid_argument}
use version_aware_lazy_segtr.Prelude.Run.{Ends, done, thrown}
use version_aware_lazy_segtr.Prelude.Vector.{copies}
use version_aware_lazy_segtr.Policy.SumAdd
use version_aware_lazy_segtr.Size.{size_max}
use version_aware_lazy_segtr.Arena.{no_node}
use version_aware_lazy_segtr.PolicyTrees.PathCopying.{
  node, PathCopyingActionTree, empty, initialize, range_apply, node_count,
}
use version_aware_lazy_segtr.PolicyTrees.Policies.{sum_add}
use version_aware_lazy_segtr.Frontier.{counts_of, frontier_counts, visited}
use version_aware_lazy_segtr.Frontier.Pushes.{PushCountingModel, push_counting_model, apply}
use version_aware_lazy_segtr.Frontier.Pushes.Appends.{SameTags, Appended, range_apply-appends}
use version_aware_lazy_segtr.Frontier.Pushes.Session.{started, updated, Together-counts}

abbrev values : List ℤ
values = pos 1 ∷ pos 2 ∷ pos 3 ∷ []

abbrev tree : PathCopyingActionTree ℤ ℤ
tree = record {
  nodes =
      node no_node no_node (pos 1) (pos 0)
      ∷ node no_node no_node (pos 2) (pos 0)
      ∷ node 0 1 (pos 3) (pos 0)
      ∷ node no_node no_node (pos 3) (pos 0)
      ∷ node 2 3 (pos 6) (pos 0)
      ∷ [];
  roots = 4 ∷ [];
  array_size = 3;
}

abbrev model : PushCountingModel ℤ
model = record { array_size = 3; tags = copies 12 (pos 0) }

push_counting_model-three : push_counting_model sum_add 3 ≡ ok model
unfolding push_counting_model
push_counting_model-three = refl

initialize-tree : initialize sum_add values empty ≡ done tt tree
unfolding initialize SumAdd.combine ◌+ℤ◌ ◌-ℤ◌
initialize-tree = refl

-- Five added to all elements: the root has a tag.
abbrev tagged : PathCopyingActionTree ℤ ℤ
tagged = record {
  nodes =
      node no_node no_node (pos 1) (pos 0)
      ∷ node no_node no_node (pos 2) (pos 0)
      ∷ node 0 1 (pos 3) (pos 0)
      ∷ node no_node no_node (pos 3) (pos 0)
      ∷ node 2 3 (pos 6) (pos 0)
      ∷ node 2 3 (pos 21) (pos 5)
      ∷ [];
  roots = 4 ∷ 5 ∷ [];
  array_size = 3;
}

abbrev tagged_model : PushCountingModel ℤ
tagged_model = record { array_size = 3; tags = pos 5 ∷ copies 11 (pos 0) }

range_apply-all : range_apply sum_add true 0 2 (pos 5) tree ≡ done 1 tagged
unfolding range_apply SumAdd.apply SumAdd.compose ◌+ℤ◌ ◌-ℤ◌ ◌*ℤ◌
range_apply-all = refl

apply-all : apply sum_add 0 2 (pos 5) model ≡ done 0 tagged_model
unfolding apply SumAdd.compose ◌+ℤ◌ ◌-ℤ◌
apply-all = refl

frontier_counts-all : frontier_counts 3 0 2 ≡ ok (counts_of 0 1)
unfolding frontier_counts
frontier_counts-all = refl

visited-all : visited (counts_of 0 1) ≡ ok 1
unfolding visited
visited-all = refl

-- Two added to the second element push the five twice.
apply-second :
    apply sum_add 1 1 (pos 2) tagged_model
    ≡ done 2
        (record { array_size = 3; tags = pos 0 ∷ pos 0 ∷ pos 5 ∷ pos 5 ∷ pos 7 ∷ copies 7 (pos 0) })
unfolding apply SumAdd.compose ◌+ℤ◌ ◌-ℤ◌
apply-second = refl

apply-reversed : apply sum_add 2 1 (pos 2) tagged_model ≡ thrown invalid_argument tagged_model
unfolding apply
apply-reversed = refl

push_counting_model-zero : push_counting_model sum_add 0 ≡ err invalid_argument
unfolding push_counting_model
push_counting_model-zero = refl

frontier_counts-second : frontier_counts 3 1 1 ≡ ok (counts_of 2 1)
unfolding frontier_counts
frontier_counts-second = refl

visited-second : visited (counts_of 2 1) ≡ ok 3
unfolding visited
visited-second = refl

tagged-SameTags : SameTags tagged tagged_model
tagged-SameTags =
    (Together-counts sum_add (
      updated 0 2 1 1 0 (pos 5) (counts_of 0 1)
        (started values empty push_counting_model-three initialize-tree) frontier_counts-all
        visited-all range_apply-all apply-all)).1

Together-counts_example :
    (node_count sum_add tagged ≡ 5 + 1)
    × SameTags tagged tagged_model
    × (tagged.array_size ≤ size_max)
Together-counts_example = Together-counts sum_add (
    updated 0 2 1 1 0 (pos 5) (counts_of 0 1)
      (started values empty push_counting_model-three initialize-tree) frontier_counts-all
      visited-all range_apply-all apply-all)

range_apply-appends_example :
    Ends
      (λ version tree'.
        Appended sum_add false 2 3 tagged (apply sum_add 1 1 (pos 2) tagged_model) tree')
      (λ e tree'. tree' ≡ tagged)
      (range_apply sum_add true 1 1 (pos 2) tagged)
range_apply-appends_example =
    range_apply-appends sum_add tagged tagged_model 1 1 3 (pos 2) (counts_of 2 1) (omega arith)
      tagged-SameTags frontier_counts-second visited-second
