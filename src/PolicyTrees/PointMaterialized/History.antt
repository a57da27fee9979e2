-- ===== src/PolicyTrees/PointMaterialized/History.antt =====
-- rangeAggregate of PointMaterializedPersistentTree against a history, and against a tree with tags.
use version_aware_lazy_segtr.Prelude.{
  ℕ, ◌-◌, ◌≤◌, ◌<◌, ◌≡◌, sym, ◌∙◌, ◌⊎◌, inl, inr, some, true, false, List, arith, length, get_elem?,
  ◌||◌, ltb, some_entry,
}
use version_aware_lazy_segtr.Prelude.Result
use version_aware_lazy_segtr.Prelude.Result.{Error, Result, ok, err, Gives, throws, Result-cases}
use version_aware_lazy_segtr.Policy.Interface.{Policy, Laws}
use version_aware_lazy_segtr.PolicyTrees.PathCopying.{PathCopyingActionTree}
use version_aware_lazy_segtr.PolicyTrees.PathCopying
use version_aware_lazy_segtr.PolicyTrees.Represents
use version_aware_lazy_segtr.PolicyTrees.History
use version_aware_lazy_segtr.PolicyTrees.Fold.{Elements, fold}
use version_aware_lazy_segtr.PolicyTrees.Query.{later, earlier}
use version_aware_lazy_segtr.PolicyTrees.PointMaterialized.{
  PointMaterializedPersistentTree, check_query, range_aggregate,
}
use version_aware_lazy_segtr.PolicyTrees.PointMaterialized.Query.{query-Answers}
use version_aware_lazy_segtr.PolicyTrees.PointMaterialized.Represents.{Represents}

module _ {A B : Type 0} (p : Policy A B) where
  check_query_facts :
      (tree : PointMaterializedPersistentTree A) (version left right : ℕ)
      → check_query p version left right tree ≡ ok tt
      → (version < length tree.roots) × (left ≤ right) × (right < tree.array_size)
  unfolding check_query
  check_query_facts tree version left right h = ground arith

module _ {A B : Type 0} {p : Policy A B} (laws : Laws p) {tree : PointMaterializedPersistentTree A}
    {history : List (Elements A)} (rep : Represents laws tree history)
    (version left right : ℕ) where
  -- The elements of the range in that version, combined in index order.
  abbrev pub Answered : A → Type 0
  Answered c =
      (f : Elements A) × (get_elem? history version ≡ some f) × (c ≡ fold laws.plus f left right)

  -- The exception of the checks, or the policy's behind them.
  abbrev pub Refused : Error → Type 0
  Refused e =
      (check_query p version left right tree ≡ err e)
      ⊎ ((check_query p version left right tree ≡ ok tt) × laws.Throws e)

  pub materialized_answers : Gives Answered Refused (range_aggregate p version left right tree)
  unfolding range_aggregate
  materialized_answers = elim (Result-cases (check_query p version left right tree)) [
    | inr (e, bad) ↦ rw bad (throws (inl (rw bad)))
    | inl (u, fits) ↦
        let (published_version, ordered, inside) =
          check_query_facts p tree version left right fits in
        let (root, at_root) = some_entry tree.roots version published_version in
        let (f, at, shape) = rep.versions version root at_root in
        let (whole, sound) = shape (omega arith) in
        rw (fits, at_root)
          (Result.mono (query-Answers laws left right ordered tree.array_size whole (omega arith))
            (λ c (fit, answer). (f, at, from_root f c ordered inside answer))
            (λ e bad. inr (fits, bad)))
  ]
    where
      from_root :
          (f : Elements A) (c : A)
          → left ≤ right
          → right < tree.array_size
          → ((ltb (tree.array_size - 1) left || ltb right 0) ≡ true) × (c ≡ p.aggregate_identity)
            ⊎ ((ltb (tree.array_size - 1) left || ltb right 0) ≡ false)
              × (c ≡ fold laws.plus f (later left 0) (earlier right (tree.array_size - 1)))
          → c ≡ fold laws.plus f left right
      from_root f c ordered inside (inl (out, e)) = absurd (ground arith)
      from_root f c ordered inside (inr (met, e)) =
          let first : later left 0 ≡ left = ground arith in
          let last : earlier right (tree.array_size - 1) ≡ right = ground arith in
          rw (first, last) at e

  -- For a policy with the laws, if a tree without tags and a path-copying tree stand for the same
  -- history, and rangeAggregate returns on both for the same version and range, the two results
  -- are the same.
  pub aggregates_agree :
      (tagged : PathCopyingActionTree A B) (a b : A)
      → Represents.Represents laws tagged history
      → range_aggregate p version left right tree ≡ ok a
      → PathCopying.range_aggregate p version left right tagged ≡ ok b
      → a ≡ b
  aggregates_agree tagged a b rep' run run' =
      let (f, at, e) = Result.value materialized_answers run in
      let (g, at', e') =
        Result.value (History.range_aggregate-answers laws rep' version left right) run' in
      let same : f ≡ g = some_injective (sym at ∙ at') in rw same at e ∙ sym e'
    where
      some_injective : {f g : Elements A} → some f ≡ some g → f ≡ g
      some_injective h = cc
