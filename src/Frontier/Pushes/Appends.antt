-- ===== src/Frontier/Pushes/Appends.antt =====
-- rangeApply of a copy-on-push tree and apply of PushCountingModel: the records that an update
-- appends are the nodes that it visits, and two for each push.
use version_aware_lazy_segtr.Prelude.{
  ℕ, ◌+◌, ◌-◌, ◌*◌, ◌≤◌, ◌<◌, ◌≡◌, refl, sym, ap, ◌∙◌, inl, inr, Bool, true, false, arith, some,
  List, Bool-cases, if◌then◌else◌,
}
use version_aware_lazy_segtr.Prelude.Result
use version_aware_lazy_segtr.Prelude.Result.{Result, ok, err, Result-cases}
use version_aware_lazy_segtr.Prelude.Run
use version_aware_lazy_segtr.Prelude.Run.{Run, Ends, done, and_then, returns, raises}
use version_aware_lazy_segtr.Size.{size_max}
use version_aware_lazy_segtr.Arena.{take-Extends, back, back-append}
use version_aware_lazy_segtr.Policy.Interface.{Policy}
use version_aware_lazy_segtr.PolicyTrees.PathCopying.{
  Arena, PathCopyingActionTree, check_update, finish_update, range_apply, node_count,
}
use version_aware_lazy_segtr.PolicyTrees.Refine.{check_update_facts}
use version_aware_lazy_segtr.Frontier.{
  FrontierCounts, frontier_counts, visited, validate_frontier_range,
}
use version_aware_lazy_segtr.Frontier.Count.{frontier, partials}
use version_aware_lazy_segtr.Frontier.Run.{
  frontier_counts-valid, frontier_counts-counts, visited-frontier, partials_small,
}
use version_aware_lazy_segtr.Frontier.Pushes.{PushCountingModel, apply, with_tags}
use version_aware_lazy_segtr.Frontier.Pushes.Mirrors.{Mirrors}
use version_aware_lazy_segtr.Frontier.Pushes.Update.{update-Updates}
use version_aware_lazy_segtr.Frontier.Pushes.Child.{Updated, Grew}

module _ {A B : Type 0} where
  -- The newest version of the tree and the model have the same tags.
  pub record SameTags (tree : PathCopyingActionTree A B) (model : PushCountingModel B)
      : Type 0 where
    pub same_size : model.array_size ≡ tree.array_size
    pub root : ℕ
    pub root_there : back tree.roots ≡ some root
    pub mirrored : Mirrors tree.nodes model.tags root 0 0 (tree.array_size - 1)

module _ {A B : Type 0} (p : Policy A B) where
  -- What a call appends, by the pushes that the model's call hands back, and that both still have
  -- the same tags.
  pub record Appended (idle : Bool) (most k : ℕ) (tree : PathCopyingActionTree A B)
      (model_run : Run (PushCountingModel B) ℕ) (tree' : PathCopyingActionTree A B) : Type 0 where
    pub pushes : ℕ
    pub model' : PushCountingModel B
    pub runs : model_run ≡ done pushes model'
    pub count : node_count p tree' ≡ node_count p tree + (if idle then 0 else k + 2 * pushes)
    pub few : pushes ≤ most
    pub size_kept : tree'.array_size ≡ tree.array_size
    pub same : SameTags tree' model'

  finish-Appended :
      (tree : PathCopyingActionTree A B) (model : PushCountingModel B) (k most : ℕ)
      {run : Run (Arena A B) ℕ} {counting : Run (List B) ℕ}
      → model.array_size ≡ tree.array_size
      → Ends
          (Updated 0 k most tree.nodes model.tags 0 0 (tree.array_size - 1) counting)
          (Grew tree.nodes)
          run
      → Ends
          (λ u tree'. Appended false most k tree (with_tags p model counting) tree')
          (λ e tree'. tree' ≡ tree)
          (finish_update p tree run)
  unfolding finish_update with_tags
  finish-Appended tree model k most same (returns {a = root} {s = nodes} x) = returns (record {
    pushes = x.total;
    model' = record model { tags = x.tags' };
    runs = rw x.runs refl;
    count = omega (arith, x.count, x.sum);
    few = omega (arith, x.few, x.sum);
    size_kept = refl;
    same = record {
      same_size = same;
      root = root;
      root_there = back-append tree.roots root;
      mirrored = x.mirrored;
    };
  })
  finish-Appended tree model k most same (raises {s = nodes} x) = raises (rw (take-Extends x) refl)

  -- A visit of frontierCounts and visited, as plain numbers.
  counted-numbers :
      (n left right k : ℕ) (counts : FrontierCounts)
      → n ≤ size_max
      → frontier_counts n left right ≡ ok counts
      → visited counts ≡ ok k
      → (left ≤ right)
        × (right < n)
        × (k ≡ frontier left right 0 (n - 1))
        × (counts.partial ≡ partials left right 0 (n - 1))
  counted-numbers n left right k counts small counted total =
      let (ordered, inside) = frontier_counts-valid n left right counts counted in
      let same_counts =
        Result.ok_injective
          (sym counted ∙ frontier_counts-counts n left right ordered inside small) in
      let same_k =
        Result.ok_injective
          (sym (rw same_counts at total) ∙ visited-frontier n left right ordered inside small) in
      (ordered, inside, same_k, ap (λ c. c.partial) same_counts)

  -- The same without the code's own count of the visited nodes.
  pub range_apply-Appended :
      (tree : PathCopyingActionTree A B) (model : PushCountingModel B) (left right : ℕ) (action : B)
      → tree.array_size ≤ size_max
      → SameTags tree model
      → Ends
          (λ version tree'.
            Appended
              (p.is_identity action)
              (partials left right 0 (tree.array_size - 1))
              (frontier left right 0 (tree.array_size - 1))
              tree
              (apply p left right action model)
              tree')
          (λ e tree'. tree' ≡ tree)
          (range_apply p true left right action tree)
  unfolding range_apply apply validate_frontier_range
  range_apply-Appended tree model left right action small same =
      let n = tree.array_size in
      elim (Result-cases (check_update p left right tree)) [
        | inr (e, bad) ↦ rw bad (raises refl)
        | inl (_, checked) ↦
            let (_, ordered, inside) = check_update_facts p tree left right checked in
            let valid : validate_frontier_range model.array_size left right ≡ ok tt =
              rw same.same_size (ground arith) in
            elim (Bool-cases (p.is_identity action)) [
              | inl idle ↦
                  rw (checked, same.root_there, idle)
                    (returns (record {
                      pushes = 0;
                      model' = model;
                      runs = rw valid refl;
                      count = omega arith;
                      few = omega arith;
                      size_kept = refl;
                      same = record {
                        same_size = same.same_size;
                        root = same.root;
                        root_there = back-append tree.roots same.root;
                        mirrored = same.mirrored;
                      };
                    }))
              | inr active ↦
                  let steps =
                    update-Updates p left right action n same.mirrored (omega arith) (ground arith)
                      (partials_small n left right (omega arith) small) in
                  rw (checked, same.root_there, active)
                    (Run.bind _
                      (finish-Appended tree model (frontier left right 0 (n - 1))
                        (partials left right 0 (n - 1)) same.same_size steps)
                      (λ u tree' x. returns (record {
                        pushes = x.pushes;
                        model' = x.model';
                        runs = rw (valid, same.same_size) (rw same.same_size at x.runs);
                        count = x.count;
                        few = x.few;
                        size_kept = x.size_kept;
                        same = x.same;
                      })))
            ]
      ]

  -- For every policy, if the newest version of a copy-on-push tree and PushCountingModel have the
  -- same tags, std::size_t holds the size, and frontierCounts and visited return k for a range,
  -- then rangeApply on it ends; if it returns, apply of the model returns some P, at most the
  -- partial nodes of frontierCounts, the tree has appended exactly k + 2P nodes, none for the
  -- identity, and both have the same tags again; if it throws, the tree is as it was.
  pub range_apply-appends :
      (tree : PathCopyingActionTree A B) (model : PushCountingModel B) (left right k : ℕ)
      (action : B) (counts : FrontierCounts)
      → tree.array_size ≤ size_max
      → SameTags tree model
      → frontier_counts tree.array_size left right ≡ ok counts
      → visited counts ≡ ok k
      → Ends
          (λ version tree'.
            Appended
              (p.is_identity action)
              counts.partial
              k
              tree
              (apply p left right action model)
              tree')
          (λ e tree'. tree' ≡ tree)
          (range_apply p true left right action tree)
  range_apply-appends tree model left right k action counts small same counted total =
      let n = tree.array_size in
      let (_, _, e, e') = counted-numbers n left right k counts small counted total in
      Run.mono (range_apply-Appended tree model left right action small same)
        (λ version tree' x. record {
          pushes = x.pushes;
          model' = x.model';
          runs = x.runs;
          count = rw e x.count;
          few = rw e' x.few;
          size_kept = x.size_kept;
          same = x.same;
        })
        (λ e tree' unchanged. unchanged)
