-- ===== src/Lazy/Leaves.antt =====
-- The recursion of materialize in src/lazy_segment_tree.cpp.
use mathlib.Core.List.{append_assoc}
use version_aware_lazy_segtr.Prelude.{
  ℕ, zero, suc, ◌-◌, ◌≤◌, ◌<◌, ◌≡◌, refl, ap, ◌∙◌, true, false, List, [], ◌∷◌, ◌++◌, arith, ◌==◌,
}
use version_aware_lazy_segtr.Prelude.Int.{ℤ, pos, ◌+ℤ◌, ◌*ℤ◌, int_laws}
use version_aware_lazy_segtr.Prelude.Result
use version_aware_lazy_segtr.Prelude.Result.{Gives, gives, IsOverflow}
use version_aware_lazy_segtr.Policy.{IsLong}
use version_aware_lazy_segtr.Policy.Arithmetic.{checked_add-Gives}
use version_aware_lazy_segtr.Policy.SumAdd.Exact.{apply-Gives}
use version_aware_lazy_segtr.Segment.{Values}
use version_aware_lazy_segtr.Segment.Sum.{seg_sum-single}
use version_aware_lazy_segtr.Persistent.Leaves.{Appended, Lists-single, Lists-append}
use version_aware_lazy_segtr.Lazy.{LazySegmentTree, materialize}
use version_aware_lazy_segtr.Lazy.Holds.{Holds, leaf, inner}

pub materialize-Gives :
    (fuel : ℕ) {tree : LazySegmentTree} {node l r : ℕ} {f : Values} (acc : ℤ) (values : List ℤ)
    → Holds tree node f l r
    → l ≤ r
    → r - l < fuel
    → IsLong acc
    → Gives (Appended f acc l r values) IsOverflow (materialize fuel tree node l r acc values)
unfolding materialize
materialize-Gives zero acc values h le enough ha = absurd (omega arith)
materialize-Gives (suc fuel) {f} acc values (leaf {l} {r} {s} e x) le enough ha =
    let same : (l == r) ≡ true = ground arith in
    rw (same, x.sum_there)
      (Result.bind (apply-Gives acc s 1 ha x.sum_long) λ z (ez, hz).
        let here : s ≡ f l = x.sum_exact ∙ rw (← e) (seg_sum-single f l) in
        let one : s +ℤ acc *ℤ pos 1 ≡ f l +ℤ acc = rw here (omega int_laws) in
        gives (z ∷ [], refl, rw (← e) (Lists-single f acc z l (ez ∙ one) (rw ez hz))))
materialize-Gives (suc fuel) {f} acc values (inner {l} {r} {g} {t} below x a b same) le enough ha =
    let more : (l == r) ≡ false = ground arith in
    rw (more, x.tag_there)
      (Result.bind (checked_add-Gives acc t ha x.tag_long) λ next (en, hn). rw en (
        Result.bind (materialize-Gives fuel (acc +ℤ t) values a (omega arith) (omega arith) hn)
          λ out (xs, eo, left).
            Result.mono (materialize-Gives fuel (acc +ℤ t) out b (omega arith) (omega arith) hn)
              (λ out' (ys, eo', right). (
                xs ++ ys,
                eo' ∙ ap (λ l. l ++ ys) eo ∙ append_assoc values xs ys,
                Lists-append f g t acc l r xs ys below same left right,
              ))
              (λ e h. h)))
