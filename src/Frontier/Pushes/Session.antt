-- ===== src/Frontier/Pushes/Session.antt =====
-- A copy-on-push tree and PushCountingModel, called side by side.
use version_aware_lazy_segtr.Prelude.{
  ℕ, ◌+◌, ◌-◌, ◌*◌, ◌≤◌, ◌≡◌, sym, ap, ◌∙◌, true, arith, List, length, if◌then◌else◌,
}
use version_aware_lazy_segtr.Prelude.Result.{Error, ok}
use version_aware_lazy_segtr.Prelude.Run
use version_aware_lazy_segtr.Prelude.Run.{done, thrown}
use version_aware_lazy_segtr.Size.{size_max}
use version_aware_lazy_segtr.Policy.Interface.{Policy}
use version_aware_lazy_segtr.PolicyTrees.PathCopying.{
  PathCopyingActionTree, initialize, range_apply, node_count,
}
use version_aware_lazy_segtr.Frontier.{FrontierCounts, frontier_counts, visited}
use version_aware_lazy_segtr.Frontier.Pushes.{PushCountingModel, push_counting_model, apply}
use version_aware_lazy_segtr.Frontier.Pushes.Appends.{
  SameTags, range_apply-Appended, range_apply-appends,
}
use version_aware_lazy_segtr.Frontier.Pushes.Start.{initialize-SameTags}

module _ {A B : Type 0} (p : Policy A B) where
  -- A call of rangeApply that throws has no call of apply beside it.
  pub data Together : PathCopyingActionTree A B → PushCountingModel B → ℕ → Type 0 where
    started :
        (values : List A) (before : PathCopyingActionTree A B) {tree : PathCopyingActionTree A B}
        {model : PushCountingModel B}
        → push_counting_model p (length values) ≡ ok model
        → initialize p values before ≡ done tt tree
        → Together tree model (2 * length values - 1)
    updated :
        {tree tree' : PathCopyingActionTree A B} {model model' : PushCountingModel B} {total : ℕ}
        (left right k version pushes : ℕ) (action : B) (counts : FrontierCounts)
        → Together tree model total
        → frontier_counts tree.array_size left right ≡ ok counts
        → visited counts ≡ ok k
        → range_apply p true left right action tree ≡ done version tree'
        → apply p left right action model ≡ done pushes model'
        → Together tree' model' (total + (if p.is_identity action then 0 else k + 2 * pushes))
    rejected :
        {tree tree' : PathCopyingActionTree A B} {model : PushCountingModel B} {total : ℕ}
        (left right : ℕ) (action : B) (e : Error)
        → Together tree model total
        → range_apply p true left right action tree ≡ thrown e tree'
        → Together tree' model total

  -- For every policy, behind an initialize of a copy-on-push tree and the constructor of
  -- PushCountingModel for its size, and any calls of rangeApply, with apply of the model beside
  -- each that returned, the tree holds exactly 2n - 1 nodes for n elements, and for each call that
  -- returned, unless its action is the identity, as many as frontierCounts and visited return and
  -- two for each push that apply returned; the newest version and PushCountingModel have the same
  -- tags, and std::size_t holds the size.
  pub Together-counts :
      {tree : PathCopyingActionTree A B} {model : PushCountingModel B} {total : ℕ}
      → Together tree model total
      → (node_count p tree ≡ total) × SameTags tree model × (tree.array_size ≤ size_max)
  Together-counts (started values before {model} made run) =
      let (count, same, small) = Run.value (initialize-SameTags p values before model made) run in
      (omega arith, same, small)
  Together-counts
        (updated {tree} {model} left right k version pushes action counts h counted visits run
          counting) =
      let (count, same, small) = Together-counts h in
      let x =
        Run.value
          (range_apply-appends p tree model left right k action counts small same counted visits)
          run in
      let e = Run.done_injective (sym x.runs ∙ counting) in
      let all_counted =
        ap (λ c. c + (if p.is_identity action then 0 else k + 2 * x.pushes)) count in
      (rw (← e.0) (x.count ∙ all_counted), rw e.1 at x.same, omega (arith, x.size_kept))
  Together-counts (rejected {tree} {model} left right action e h run) =
      let (count, same, small) = Together-counts h in
      let back =
        Run.exception (range_apply-Appended p tree model left right action small same) run in
      rw back (count, same, small)
