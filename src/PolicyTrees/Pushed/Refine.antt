-- ===== src/PolicyTrees/Pushed/Refine.antt =====
-- rangeApply and rangeAggregate of PushedLazyTree against the elements that it stands for.
use version_aware_lazy_segtr.Prelude.{
  ℕ, ◌-◌, ◌≤◌, ◌<◌, ◌≡◌, ◌||◌, refl, ◌⊎◌, true, false, inl, inr, arith, ltb,
}
use version_aware_lazy_segtr.Prelude.Result.{Error, ok, err, Result-cases}
use version_aware_lazy_segtr.Prelude.Run
use version_aware_lazy_segtr.Prelude.Run.{Run, Ends, returns, raises}
use version_aware_lazy_segtr.Policy.Interface.{Policy, Laws}
use version_aware_lazy_segtr.PolicyTrees.Fold.{Elements, fold, applied}
use version_aware_lazy_segtr.PolicyTrees.Query.{later, earlier}
use version_aware_lazy_segtr.PolicyTrees.Pushed.{
  PushedLazyTree, check_range, range_apply, range_aggregate,
}
use version_aware_lazy_segtr.PolicyTrees.Pushed.Holds.{Holds, Settled-Holds}
use version_aware_lazy_segtr.PolicyTrees.Pushed.Update.{update-Settles}
use version_aware_lazy_segtr.PolicyTrees.Pushed.Query.{query-Looks}

range_facts :
    {A B : Type 0} (p : Policy A B) (tree : PushedLazyTree A B) (left right : ℕ)
    → check_range p left right tree ≡ ok tt
    → (left ≤ right) × (right < tree.array_size)
unfolding check_range
range_facts p tree left right h = ground arith

module _ {A B : Type 0} {p : Policy A B} (laws : Laws p) where
  -- The root stands for the elements. The empty tree has no root.
  abbrev pub Represents : PushedLazyTree A B → Elements A → Type 0
  Represents tree f = 0 < tree.array_size → Holds laws tree 0 f 0 (tree.array_size - 1)

  -- The exception of the checks, and the tree as it was, or one of the policy behind them.
  abbrev pub Failed : PushedLazyTree A B → (left right : ℕ) → Error → PushedLazyTree A B → Type 0
  Failed tree left right e tree' =
      ((tree' ≡ tree) × (check_range p left right tree ≡ err e))
      ⊎ ((check_range p left right tree ≡ ok tt) × laws.Throws e)

  resized :
      (tree : PushedLazyTree A B) {m n : ℕ} {f : Elements A}
      → m ≡ n
      → Holds laws tree 0 f 0 (n - 1)
      → Holds laws tree 0 f 0 (m - 1)
  resized tree e h = rw e h

  -- For a policy with the laws, on an in-place tree that stands for elements, and an action that
  -- the laws admit, rangeApply ends; the tree stands for the elements with the action applied to
  -- those in the range, or it throws the exception of its argument checks, and the tree is as it
  -- was, or one of the policy behind them.
  pub range_apply-pushes :
      (tree : PushedLazyTree A B) (f : Elements A) (left right : ℕ) (action : B)
      → Represents tree f
      → laws.Good action
      → Ends
          (λ w tree'.
            Represents tree' (applied laws left right action f)
            × (tree'.array_size ≡ tree.array_size))
          (Failed tree left right)
          (range_apply p left right action tree)
  unfolding range_apply
  range_apply-pushes tree f left right action rep good =
      elim (Result-cases (check_range p left right tree)) [
        | inr (e, bad) ↦ rw bad (raises (inl (refl, bad)))
        | inl (u, fits) ↦
            let (ordered, inside) = range_facts p tree left right fits in
            rw fits (
              Run.mono
                (update-Settles laws left right action good tree.array_size (rep (omega arith))
                  (omega arith))
                (λ w tree' (frame, settled). (
                  λ some_element. resized tree' frame.size_kept (Settled-Holds laws settled),
                  frame.size_kept,
                ))
                (λ e s bad. inr (fits, bad)))
      ]

  -- For a policy with the laws, on an in-place tree that stands for elements, rangeAggregate ends;
  -- it returns the elements of the range, combined in index order, and the tree stands for the
  -- same elements, or it throws the exception of its argument checks, and the tree is as it was,
  -- or one of the policy behind them.
  pub range_aggregate-pushes :
      (tree : PushedLazyTree A B) (f : Elements A) (left right : ℕ)
      → Represents tree f
      → Ends
          (λ c tree'.
            (c ≡ fold laws.plus f left right)
            × Represents tree' f
            × (tree'.array_size ≡ tree.array_size))
          (Failed tree left right)
          (range_aggregate p left right tree)
  unfolding range_aggregate
  range_aggregate-pushes tree f left right rep =
      elim (Result-cases (check_range p left right tree)) [
        | inr (e, bad) ↦ rw bad (raises (inl (refl, bad)))
        | inl (u, fits) ↦
            let (ordered, inside) = range_facts p tree left right fits in
            rw fits (
              Run.mono
                (query-Looks laws left right ordered tree.array_size (rep (omega arith))
                  (omega arith) (omega arith))
                (λ c tree' (frame, h, (fit, answer)). (
                  whole f left right tree.array_size c ordered inside answer,
                  λ some_element. resized tree' frame.size_kept h,
                  frame.size_kept,
                ))
                (λ e s bad. inr (fits, bad)))
      ]
    where
      whole :
          (f : Elements A) (left right n : ℕ) (c : A)
          → left ≤ right
          → right < n
          → ((ltb (n - 1) left || ltb right 0) ≡ true) × (c ≡ p.aggregate_identity)
            ⊎ ((ltb (n - 1) left || ltb right 0) ≡ false)
              × (c ≡ fold laws.plus f (later left 0) (earlier right (n - 1)))
          → c ≡ fold laws.plus f left right
      whole f left right n c ordered inside (inl (out, e)) = absurd (ground arith)
      whole f left right n c ordered inside (inr (met, e)) =
          let first : later left 0 ≡ left = ground arith in
          let last : earlier right (n - 1) ≡ right = ground arith in rw (first, last) at e
