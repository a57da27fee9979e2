-- ===== src/PolicyTrees/History.antt =====
-- rangeAggregate of PathCopyingActionTree against a history of elements.
use version_aware_lazy_segtr.Prelude.{
  ℕ, ◌-◌, ◌≤◌, ◌<◌, ◌≡◌, ◌∙◌, ◌⊎◌, inl, inr, some, true, false, List, arith, length, get_elem?,
  ◌||◌, ltb, some_entry,
}
use version_aware_lazy_segtr.Prelude.Result
use version_aware_lazy_segtr.Prelude.Result.{
  Error, Result, ok, err, Gives, gives, throws, Result-cases,
}
use version_aware_lazy_segtr.Policy.Interface.{Policy, Laws}
use version_aware_lazy_segtr.PolicyTrees.PathCopying.{
  PathCopyingActionTree, check_query, range_aggregate,
}
use version_aware_lazy_segtr.PolicyTrees.Fold.{Elements, fold, fold-congr, acted}
use version_aware_lazy_segtr.PolicyTrees.Holds.{AllSound, root_node}
use version_aware_lazy_segtr.PolicyTrees.Query.{later, earlier, query-Answers}
use version_aware_lazy_segtr.PolicyTrees.Represents.{Represents}

module _ {A B : Type 0} (p : Policy A B) where
  check_query_facts :
      (tree : PathCopyingActionTree A B) (version left right : ℕ)
      → check_query p version left right tree ≡ ok tt
      → (version < length tree.roots) × (left ≤ right) × (right < tree.array_size)
  unfolding check_query
  check_query_facts tree version left right h = ground arith

module _ {A B : Type 0} {p : Policy A B} (laws : Laws p) where
  module _ {tree : PathCopyingActionTree A B} {history : List (Elements A)}
      (rep : Represents laws tree history) (version left right : ℕ) where
    -- The elements of the range in that version, combined in index order.
    abbrev pub Answered : A → Type 0
    Answered c =
        (f : Elements A) × (get_elem? history version ≡ some f) × (c ≡ fold laws.plus f left right)

    -- The exception of the checks, or the policy's behind them.
    abbrev pub Refused : Error → Type 0
    Refused e =
        (check_query p version left right tree ≡ err e)
        ⊎ ((check_query p version left right tree ≡ ok tt) × laws.Throws e)

    -- For a policy with the laws, on a path-copying tree that stands for a history, rangeAggregate
    -- ends; it returns the elements of the range in that version, combined in index order, or
    -- throws the exception of its argument checks, or one of the policy behind them.
    pub range_aggregate-answers : Gives Answered Refused (range_aggregate p version left right tree)
    unfolding range_aggregate
    range_aggregate-answers = elim (Result-cases (check_query p version left right tree)) [
      | inr (e, bad) ↦ rw bad (throws (inl (rw bad)))
      | inl (u, fits) ↦
          let (published_version, ordered, inside) =
            check_query_facts p tree version left right fits in
          let (root, at_root) = some_entry tree.roots version published_version in
          let (f, at, shape) = rep.versions version root at_root in
          let whole = shape (omega arith) in
          let idle = acted laws p.action_identity f in
          rw (fits, at_root)
            (Result.mono
              (query-Answers laws left right ordered tree.array_size p.action_identity whole
                laws.identity_good (omega arith))
              (λ c (fit, answer).
                (f, at, from_root f c ordered inside (root_node laws whole).2 answer))
              (λ e bad. inr (fits, bad)))
    ]
      where
        from_root :
            (f : Elements A) (c : A)
            → left ≤ right
            → right < tree.array_size
            → AllSound laws f 0 (tree.array_size - 1)
            → ((ltb (tree.array_size - 1) left || ltb right 0) ≡ true) × (c ≡ p.aggregate_identity)
              ⊎ ((ltb (tree.array_size - 1) left || ltb right 0) ≡ false)
                × (c
                    ≡ fold laws.plus
                        (acted laws p.action_identity f)
                        (later left 0)
                        (earlier right (tree.array_size - 1)))
            → c ≡ fold laws.plus f left right
        from_root f c ordered inside sound (inl (out, e)) = absurd (ground arith)
        from_root f c ordered inside sound (inr (met, e)) =
            let first : later left 0 ≡ left = ground arith in
            let last : earlier right (tree.array_size - 1) ≡ right = ground arith in
            rw (first, last) at e
            ∙ fold-congr laws.plus (acted laws p.action_identity f) f left right ordered (λ k u v.
              laws.act_identity 1 laws.identity_known (sound k (omega arith) (omega arith)))
