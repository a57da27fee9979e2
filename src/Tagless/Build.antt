-- ===== src/Tagless/Build.antt =====
-- The recursion of build, which the trees without tags share.
use version_aware_lazy_segtr.Prelude.{
  ℕ, zero, suc, ◌+◌, ◌-◌, ◌≤◌, ◌<◌, ◌≡◌, sym, inl, inr, List, arith, ◌==◌, Bool-cases, eq_of_==,
  ne_of_==, length, get_elem?-get_or,
}
use version_aware_lazy_segtr.Prelude.Int.{ℤ, pos}
use version_aware_lazy_segtr.Prelude.Result.{gives, ok}
use version_aware_lazy_segtr.Segment.{of_list, AllLong, seg_sum}
use version_aware_lazy_segtr.Segment.Sum.{seg_sum-single}
use version_aware_lazy_segtr.Size.{midpoint}
use version_aware_lazy_segtr.Tagless.{Arena, build}
use version_aware_lazy_segtr.Tagless.Step.{Makes, leaf_step, both_step}

module _ (values : List ℤ) (all : AllLong values) where
  pub build-Makes :
      (fuel : ℕ) (nodes : Arena) (l r : ℕ)
      → l ≤ r
      → r < length values
      → r - l < fuel
      → Makes nodes (of_list values) l r (build fuel values l r nodes)
  unfolding build
  build-Makes zero nodes l r le lt enough = absurd (omega arith)
  build-Makes (suc fuel) nodes l r le lt enough = elim (Bool-cases (l == r)) [
    | inl same ↦
        let e : l ≡ r = eq_of_== l r same in
        let single : seg_sum (of_list values) l r ≡ of_list values l =
          rw (← e) (seg_sum-single (of_list values) l) in
        rw (same, get_elem?-get_or values l (pos 0) (omega arith))
          (leaf_step {value = ok (of_list values l)} e
            (gives (sym single, rw single (all l (omega arith)))))
    | inr more ↦
        let below : l < r = ground (arith, ne_of_== l r more) in
        rw more (
          both_step (of_list values) (build fuel values l (midpoint l r))
            (build fuel values (midpoint l r + 1) r) below
            (build-Makes fuel nodes l (midpoint l r) (omega arith) (omega arith) (omega arith))
            (λ nodes' ext.
              build-Makes fuel nodes' (midpoint l r + 1) r (omega arith) (omega arith)
                (omega arith)))
  ]
