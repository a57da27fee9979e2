-- ===== src/FullCopy/Update.antt =====
-- The recursion of fullCopyUpdate in src/full_copy_persistent_segment_tree.cpp.
use version_aware_lazy_segtr.Prelude.{
  ℕ, zero, suc, ◌+◌, ◌-◌, ◌<◌, ◌≡◌, refl, inl, inr, true, false, arith, ◌==◌, covers, Bool-cases,
}
use version_aware_lazy_segtr.Prelude.Int.{ℤ}
use version_aware_lazy_segtr.Prelude.Result.{Gives, gives}
use version_aware_lazy_segtr.Policy.{IsLong}
use version_aware_lazy_segtr.Policy.Arithmetic.{Exact, Unrepresentable, checked_add-Exact}
use version_aware_lazy_segtr.Segment.{Values, seg_sum, add_range}
use version_aware_lazy_segtr.Segment.Sum.{seg_sum-single}
use version_aware_lazy_segtr.Size.{midpoint}
use version_aware_lazy_segtr.Tagless.{Arena, Node}
use version_aware_lazy_segtr.Tagless.Holds.{IsExact, Holds, leaf, inner, Holds-Extends}
use version_aware_lazy_segtr.Tagless.Step.{Makes, leaf_step, both_step}
use version_aware_lazy_segtr.FullCopy.{leaf_value, full_copy_update}

module _ (v : ℤ) (hv : IsLong v) (ql qr : ℕ) where
  leaf_value-Exact :
      {l r : ℕ} (f : Values) (n : Node)
      → l ≡ r
      → IsExact n f l r
      → Gives
          (Exact (seg_sum (add_range f ql qr v) l r))
          (Unrepresentable (seg_sum (add_range f ql qr v) l r))
          (leaf_value l ql qr n.sum v)
  unfolding leaf_value
  leaf_value-Exact {l} {r} f n e (es, hs) =
      let at : seg_sum f l r ≡ f l = rw (← e) (seg_sum-single f l) in
      let at' : seg_sum (add_range f ql qr v) l r ≡ add_range f ql qr v l =
        rw (← e) (seg_sum-single (add_range f ql qr v) l) in
      elim (Bool-cases (covers ql qr l l)) [
        | inl on ↦ rw (at', on, ← at, ← es) (checked_add-Exact n.sum v hs hv)
        | inr off ↦ rw (at', off, ← at, ← es) (gives (refl, hs))
      ]

  pub full_copy_update-Makes :
      (fuel : ℕ) {nodes : Arena} {i l r : ℕ} {f : Values}
      → Holds nodes i f l r
      → r - l < fuel
      → Makes nodes (add_range f ql qr v) l r (full_copy_update fuel i l r ql qr v nodes)
  unfolding full_copy_update
  full_copy_update-Makes zero h enough = absurd (omega arith)
  full_copy_update-Makes (suc fuel) (leaf {l} {r} {f} {n} at e x) enough =
      let test : (l == r) ≡ true = ground arith in
      rw (at, test) (leaf_step e (leaf_value-Exact f n e x))
  full_copy_update-Makes (suc fuel) (inner {l} {r} {f} {n} at below a b x) enough =
      let test : (l == r) ≡ false = ground arith in
      rw (at, test)
        (both_step (add_range f ql qr v)
          (full_copy_update fuel n.left_child l (midpoint l r) ql qr v)
          (full_copy_update fuel n.right_child (midpoint l r + 1) r ql qr v) below
          (full_copy_update-Makes fuel a (omega arith))
          (λ nodes' ext. full_copy_update-Makes fuel (Holds-Extends ext b) (omega arith)))
