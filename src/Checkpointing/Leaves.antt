-- ===== src/Checkpointing/Leaves.antt =====
-- The recursion of materialize in src/checkpointing_segment_tree.cpp.
use mathlib.Core.List.{append_assoc}
use version_aware_lazy_segtr.Prelude.{
  ℕ, zero, suc, ◌-◌, ◌≤◌, ◌<◌, ◌≡◌, refl, ap, ◌∙◌, true, false, List, [], ◌∷◌, ◌++◌, arith, ◌==◌,
}
use version_aware_lazy_segtr.Prelude.Int.{ℤ, pos, ◌+ℤ◌, ◌*ℤ◌, int_laws}
use version_aware_lazy_segtr.Prelude.Result
use version_aware_lazy_segtr.Prelude.Result.{Gives, gives, IsOverflow}
use version_aware_lazy_segtr.Policy.{IsLong}
use version_aware_lazy_segtr.Policy.Arithmetic.{checked_add-Gives}
use version_aware_lazy_segtr.Policy.SumAdd.Exact.{apply-Gives}
use version_aware_lazy_segtr.Segment.{Values}
use version_aware_lazy_segtr.Segment.Sum.{seg_sum-single}
use version_aware_lazy_segtr.Persistent.Leaves.{Appended, Lists-single, Lists-append}
use version_aware_lazy_segtr.Checkpointing.Nodes.{Node, materialize}
use version_aware_lazy_segtr.Checkpointing.Holds.{Holds, leaf, inner}
use version_aware_lazy_segtr.Checkpointing.Layout.{right_child-Gives}

pub materialize-Gives :
    (fuel : ℕ) {nodes : List Node} {i l r : ℕ} {f : Values} (acc : ℤ) (values : List ℤ)
    → Holds nodes i f l r
    → l ≤ r
    → r - l < fuel
    → IsLong acc
    → Gives (Appended f acc l r values) IsOverflow (materialize fuel nodes i l r acc values)
unfolding materialize
materialize-Gives zero acc values h le enough ha = absurd (omega arith)
materialize-Gives (suc fuel) {f} acc values (leaf {l} {r} {n} at e x) le enough ha =
    let same : (l == r) ≡ true = ground arith in
    rw (at, same)
      (Result.bind (apply-Gives acc n.sum 1 ha x.sum_long) λ z (ez, hz).
        let here : n.sum ≡ f l = x.sum_exact ∙ rw (← e) (seg_sum-single f l) in
        let one : n.sum +ℤ acc *ℤ pos 1 ≡ f l +ℤ acc = rw here (omega int_laws) in
        gives (z ∷ [], refl, rw (← e) (Lists-single f acc z l (ez ∙ one) (rw ez hz))))
materialize-Gives (suc fuel) {f} acc values (inner {i} {l} {r} {g} {n} at below a b same x) le
      enough ha =
    let more : (l == r) ≡ false = ground arith in
    rw (at, more)
      (Result.bind (checked_add-Gives acc n.lazy ha x.lazy_long) λ next (en, hn). rw en (
        Result.bind (materialize-Gives fuel (acc +ℤ n.lazy) values a (omega arith) (omega arith) hn)
          λ out (xs, eo, left). Result.bind (right_child-Gives i l r le) λ j ej. rw ej (
            Result.mono
              (materialize-Gives fuel (acc +ℤ n.lazy) out b (omega arith) (omega arith) hn)
              (λ out' (ys, eo', right). (
                xs ++ ys,
                eo' ∙ ap (λ l. l ++ ys) eo ∙ append_assoc values xs ys,
                Lists-append f g n.lazy acc l r xs ys below same left right,
              ))
              (λ e h. h))))
