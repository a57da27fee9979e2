-- ===== src/PointOnly/Update.antt =====
-- The recursion of pointOnlyUpdate in src/point_only_persistent_segment_tree.cpp.
use version_aware_lazy_segtr.Prelude.{
  ℕ, zero, suc, ◌+◌, ◌-◌, ◌≤◌, ◌<◌, ◌≡◌, refl, true, false, Bool, arith, ◌==◌, leb, ltb, covers,
  leb→le, leb→lt, ltb→lt, ltb→le, if◌then◌else◌,
}
use version_aware_lazy_segtr.Prelude.Int.{ℤ}
use version_aware_lazy_segtr.Prelude.Result.{Gives}
use version_aware_lazy_segtr.Prelude.Run.{Action, returns, pure}
use version_aware_lazy_segtr.Policy.{IsLong, checked_add}
use version_aware_lazy_segtr.Policy.Arithmetic.{Exact, Unrepresentable, checked_add-Exact}
use version_aware_lazy_segtr.Segment.{Values, seg_sum, add_range}
use version_aware_lazy_segtr.Segment.Sum.{
  Agree, Agree-sym, seg_sum-single, Agree-add_range_left, Agree-add_range_right,
}
use version_aware_lazy_segtr.Size.{midpoint}
use version_aware_lazy_segtr.Arena.{Extends-refl}
use version_aware_lazy_segtr.Tagless.{Arena, Node}
use version_aware_lazy_segtr.Tagless.Holds.{IsExact, Holds, leaf, inner, Holds-congr, Holds-Extends}
use version_aware_lazy_segtr.Tagless.Step.{Makes, leaf_step, both_step}
use version_aware_lazy_segtr.PointOnly.{point_only_update}

-- One child: visited, or shared because its values do not change.
child_step :
    {nodes : Arena} {f g : Values} {l r : ℕ} (visit : Bool) (c : ℕ) (go : Action Arena ℕ)
    → Holds nodes c f l r
    → (visit ≡ true → Makes nodes g l r (go nodes))
    → (visit ≡ false → Agree f g l r)
    → Makes nodes g l r ((if visit then go else pure c) nodes)
child_step true c go h step same = step refl
child_step {nodes} false c go h step same = returns (Extends-refl nodes, Holds-congr h (same refl))

module _ (v : ℤ) (hv : IsLong v) (ql qr : ℕ) where
  point-Exact :
      {l r : ℕ} (f : Values) (n : Node)
      → l ≡ r
      → IsExact n f l r
      → covers ql qr l l ≡ true
      → Gives
          (Exact (seg_sum (add_range f ql qr v) l r))
          (Unrepresentable (seg_sum (add_range f ql qr v) l r))
          (checked_add n.sum v)
  point-Exact {l} {r} f n e (es, hs) on =
      let at : seg_sum f l r ≡ f l = rw (← e) (seg_sum-single f l) in
      let at' : seg_sum (add_range f ql qr v) l r ≡ add_range f ql qr v l =
        rw (← e) (seg_sum-single (add_range f ql qr v) l) in
      rw (at', on, ← at, ← es) (checked_add-Exact n.sum v hs hv)

  pub point_only_update-Makes :
      (fuel : ℕ) {nodes : Arena} {i l r : ℕ} {f : Values}
      → Holds nodes i f l r
      → r - l < fuel
      → ql ≤ r
      → l ≤ qr
      → Makes nodes (add_range f ql qr v) l r (point_only_update fuel i l r ql qr v nodes)
  unfolding point_only_update
  point_only_update-Makes zero h enough p q = absurd (omega arith)
  point_only_update-Makes (suc fuel) (leaf {l} {r} {f} {n} at e x) enough p q =
      let test : (l == r) ≡ true = ground arith in
      rw (at, test) (leaf_step e (point-Exact f n e x (ground arith)))
  point_only_update-Makes (suc fuel) (inner {l} {r} {f} {n} at below a b x) enough p q =
      let g = add_range f ql qr v in
      let m = midpoint l r in
      let test : (l == r) ≡ false = ground arith in
      rw (at, test)
        (both_step g
          (if leb ql m then point_only_update fuel n.left_child l m ql qr v else pure n.left_child)
          (if ltb m qr
            then point_only_update fuel n.right_child (m + 1) r ql qr v
            else pure n.right_child)
          below
          (child_step (leb ql m) n.left_child (point_only_update fuel n.left_child l m ql qr v) a
            (λ go. point_only_update-Makes fuel a (omega arith) (leb→le ql m go) q)
            (λ off. Agree-sym (Agree-add_range_left f ql qr v l m (leb→lt ql m off))))
          (λ nodes' ext.
            child_step (ltb m qr) n.right_child
              (point_only_update fuel n.right_child (m + 1) r ql qr v) (Holds-Extends ext b)
              (λ go.
                let reach = ltb→lt m qr go in
                point_only_update-Makes fuel (Holds-Extends ext b) (omega arith) p (omega arith))
              (λ off.
                let after = ltb→le m qr off in
                Agree-sym (Agree-add_range_right f ql qr v (m + 1) r (omega arith)))))
