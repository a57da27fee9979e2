-- ===== src/Lazy/Refine.antt =====
-- rangeAdd and rangeSum of LazySegmentTree against an array.
use version_aware_lazy_segtr.Prelude.{
  ℕ, ◌-◌, ◌≡◌, refl, sym, inl, inr, ◌⊎◌, true, false, Bool-cases, List, arith,
}
use version_aware_lazy_segtr.Prelude.Int.{ℤ, pos}
use version_aware_lazy_segtr.Prelude.Result
use version_aware_lazy_segtr.Prelude.Result.{
  Error, ok, err, Gives, throws, IsOverflow, Result-cases,
}
use version_aware_lazy_segtr.Prelude.Run
use version_aware_lazy_segtr.Prelude.Run.{Run, Ends, returns, raises}
use version_aware_lazy_segtr.Policy.{IsLong, eq_ℤ}
use version_aware_lazy_segtr.Policy.Arithmetic.{Exact}
use version_aware_lazy_segtr.Segment.{of_list, seg_sum}
use version_aware_lazy_segtr.Segment.Canonical.{Canonical-congr}
use version_aware_lazy_segtr.Tagless.Refine.{added_nothing}
use version_aware_lazy_segtr.Persistent.History.{answer_at_root}
use version_aware_lazy_segtr.Lazy.{LazySegmentTree, validate_range, range_add, range_sum}
use version_aware_lazy_segtr.Lazy.Holds.{Holds-congr}
use version_aware_lazy_segtr.Lazy.Preflight.{validate_update-Gives}
use version_aware_lazy_segtr.Lazy.Update.{update-Lands}
use version_aware_lazy_segtr.Lazy.Query.{query-Gives}
use version_aware_lazy_segtr.Lazy.Represents.{
  Represents, Changed, range_facts, whole, whole_contract, guard-Gives, changed,
}

-- The tree is as it was. The exception is the one of the checks, or an overflow behind them.
abbrev pub Unchanged : LazySegmentTree → (left right : ℕ) → Error → LazySegmentTree → Type 0
Unchanged tree left right e tree' =
    (tree' ≡ tree)
    × ((validate_range left right tree ≡ err e)
        ⊎ ((validate_range left right tree ≡ ok tt) × IsOverflow e))

module _ {tree : LazySegmentTree} {xs : List ℤ} (rep : Represents tree xs) (left right : ℕ) where
  module _ (v : ℤ) (hv : IsLong v) where
    abbrev Outcome : Run LazySegmentTree (Unit {0}) → Type 0
    Outcome run = Ends (λ u tree'. Changed xs left right v tree') (Unchanged tree left right) run

    module _ (ranged : validate_range left right tree ≡ ok tt) where
      -- A nonzero action: the guard, the preflight, the writes, and the guard's new bound.
      nonzero_added : eq_ℤ v (pos 0) ≡ false → Outcome (range_add left right v tree)
      unfolding range_add
      nonzero_added nonzero =
          let (ordered, inside) = range_facts tree left right ranged in
          rw (ranged, nonzero)
            (Run.bind_lift _ tree (guard-Gives rep left right v hv ranged)
              (λ b (c, bound).
                Run.bind_lift _ tree
                  (validate_update-Gives v hv left right tree tree.array_size
                    (whole rep left right v hv ranged) (omega arith) (omega arith) (omega arith)
                    (omega arith))
                  (λ total (exact, fits).
                    Run.bind _
                      (Run.mono (update-Lands v left right tree.array_size fits (omega arith))
                        (λ u s h. h) (λ e s none. absurd none))
                      (λ u tree' (frame, h).
                        returns
                          (changed rep left right v hv ranged tree' b frame.size_kept h c bound)))
                  (λ e is. (refl, inr (ranged, is))))
              (λ e is. (refl, inr (ranged, is))))

      zero_added : eq_ℤ v (pos 0) ≡ true → Outcome (range_add left right v tree)
      unfolding range_add
      zero_added zero_value =
          let same = added_nothing (of_list xs) left right v (ground arith) in
          rw (ranged, zero_value)
            (returns (
              changed rep left right v hv ranged tree tree.numeric_domain refl
                (Holds-congr (whole rep left right v hv ranged) (λ k p q. sym (same k)))
                (Canonical-congr (whole_contract rep left right v hv ranged)
                  (λ k p q. sym (same k)))
                (λ k p. rw (same k) (rep.bounded k p))))

    -- On an in-place tree that stands for a vector, rangeAdd of a long long ends; the tree stands
    -- for the vector that a brute-force array adds to that one, or it throws, the tree is as it
    -- was, and the exception is the one of the argument checks, or an overflow if they pass.
    pub lazy_range_add_refines : Outcome (range_add left right v tree)
    unfolding range_add
    lazy_range_add_refines = elim (Result-cases (validate_range left right tree)) [
      | inr (e, bad) ↦ rw bad (raises (refl, inl bad))
      | inl (u, ranged) ↦ elim (Bool-cases (eq_ℤ v (pos 0))) [
        | inl zero_value ↦ zero_added ranged zero_value
        | inr nonzero ↦ nonzero_added ranged nonzero
      ]
    ]

  -- On an in-place tree that stands for a vector, rangeSum ends; it returns the exact sum of the
  -- range, or throws the exception of the argument checks, or an overflow if they pass.
  pub lazy_range_sum_answers :
      Gives
        (Exact (seg_sum (of_list xs) left right))
        (λ e.
          (validate_range left right tree ≡ err e)
          ⊎ ((validate_range left right tree ≡ ok tt) × IsOverflow e))
        (range_sum left right tree)
  unfolding range_sum
  lazy_range_sum_answers = elim (Result-cases (validate_range left right tree)) [
    | inr (e, bad) ↦ rw bad (throws (inl refl))
    | inl (u, ranged) ↦
        let (ordered, inside) = range_facts tree left right ranged in
        let root =
          answer_at_root (of_list xs) left right (tree.array_size - 1) ordered (omega arith) in
        rw ranged (
          Result.mono
            (query-Gives left right tree tree.array_size (pos 0) (rep.shape (omega arith))
              (omega arith) (omega arith) (omega arith))
            (λ s h. rw root at h) (λ e is. inr (refl, is)))
  ]
