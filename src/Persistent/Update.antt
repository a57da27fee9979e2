-- ===== src/Persistent/Update.antt =====
-- The recursion of update in src/persistent_lazy_segment_tree.cpp.
use version_aware_lazy_segtr.Prelude.{
  ℕ, zero, suc, ◌+◌, ◌-◌, ◌≤◌, ◌<◌, ◌≡◌, inl, inr, true, some, arith, leb, ltb, covers,
  if◌then◌else◌, Bool-cases, covers→le, leb→le, leb→lt, ltb→lt, ltb→le, get_elem?,
}
use version_aware_lazy_segtr.Prelude.Int.{ℤ}
use version_aware_lazy_segtr.Prelude.Run
use version_aware_lazy_segtr.Prelude.Run.{Action, Run, Ends, returns, raises, pure, lift, ◌>>=◌}
use version_aware_lazy_segtr.Policy.{IsLong, checked_add}
use version_aware_lazy_segtr.Policy.Arithmetic.{checked_add-Gives}
use version_aware_lazy_segtr.Policy.SumAdd.{apply}
use version_aware_lazy_segtr.Policy.SumAdd.Exact.{apply-Gives}
use version_aware_lazy_segtr.Size.{midpoint}
use version_aware_lazy_segtr.Size.Exact.{inclusive_length-Gives}
use version_aware_lazy_segtr.Segment.{Values, add_range, plus}
use version_aware_lazy_segtr.Segment.Sum.{
  Agree, seg_sum-add_range, Agree-sym, add_range-plus, Agree-add_range_left, Agree-add_range_right,
}
use version_aware_lazy_segtr.Arena.{Extends-refl, append, append-Ends}
use version_aware_lazy_segtr.Persistent.Write.{Node, node, Arena, update}
use version_aware_lazy_segtr.Persistent.Step.{
  Grown, Stopped, Grown-further, child_step, parent, parent-Ends, covered-Holds,
}
use version_aware_lazy_segtr.Persistent.Holds.{IsExact, Holds, leaf, inner, Holds-Extends}

module _ (v : ℤ) (hv : IsLong v) (ql qr : ℕ) where
  covered_step :
      {nodes : Arena} {i l r : ℕ} {f : Values} (n : Node) (len : ℕ)
      → Holds nodes i f l r
      → get_elem? nodes i ≡ some n
      → IsExact n f l r
      → len ≡ r + 1 - l
      → (ql ≤ l) × (r ≤ qr)
      → Ends (Grown nodes (add_range f ql qr v) l r) (Stopped nodes) (
          (do
            sum ← lift (apply v n.sum len)
            lazy ← lift (checked_add n.lazy v)
            append (node n.left_child n.right_child sum lazy))
            nodes)
  covered_step {nodes} {l} {r} {f} n len h at x elen (p, q) = rw elen (
      Run.bind_lift _ nodes (apply-Gives v n.sum (r + 1 - l) hv x.sum_long)
        (λ s (es, hs).
          Run.bind_lift _ nodes (checked_add-Gives n.lazy v x.lazy_long hv)
            (λ t (et, ht).
              Run.mono (append-Ends (node n.left_child n.right_child s t) nodes)
                (λ j nodes' (ext, at'). (
                  ext,
                  covered-Holds v ql qr n s t h at ext at' p q et (record {
                    sum_exact = rw (seg_sum-add_range f ql qr v l r p q, ← x.sum_exact) es;
                    sum_long = rw es hs;
                    lazy_long = rw et ht;
                  }),
                ))
                (λ e s h. h))
            (λ e h. (h, Extends-refl nodes)))
        (λ e h. (h, Extends-refl nodes)))

  partial_step :
      {nodes : Arena} {l r : ℕ} {f g : Values} (n : Node) (len : ℕ)
      (go_left go_right : Action Arena ℕ)
      → l < r
      → len ≡ r + 1 - l
      → Holds nodes n.left_child g l (midpoint l r)
      → Holds nodes n.right_child g (midpoint l r + 1) r
      → Agree f (plus g n.lazy) l r
      → IsLong n.lazy
      → (leb ql (midpoint l r) ≡ true
          → Ends
              (Grown nodes (add_range g ql qr v) l (midpoint l r))
              (Stopped nodes)
              (go_left nodes))
      → ((nodes' : Arena)
          → Holds nodes' n.right_child g (midpoint l r + 1) r
          → ltb (midpoint l r) qr ≡ true
          → Ends
              (Grown nodes' (add_range g ql qr v) (midpoint l r + 1) r)
              (Stopped nodes')
              (go_right nodes'))
      → Ends (Grown nodes (add_range f ql qr v) l r) (Stopped nodes) (
          (do
            new_left ← if leb ql (midpoint l r) then go_left else pure n.left_child
            new_right ← if ltb (midpoint l r) qr then go_right else pure n.right_child
            parent new_left new_right len n.lazy)
            nodes)
  partial_step {nodes} {l} {r} {f} {g} n len go_left go_right below elen a b same ht step_left
        step_right =
      let g' = add_range g ql qr v in
      let m = midpoint l r in
      Run.bind _
        (child_step (leb ql m) n.left_child go_left a step_left
          (λ off. Agree-sym (Agree-add_range_left g ql qr v l m (leb→lt ql m off))))
        (λ i nodes1 (ext1, left).
          let b1 = Holds-Extends ext1 b in
          Grown-further ext1 (
            Run.bind _
              (child_step (ltb m qr) n.right_child go_right b1 (step_right nodes1 b1) (λ off.
                let after = ltb→le m qr off in
                Agree-sym (Agree-add_range_right g ql qr v (m + 1) r (omega arith))))
              (λ j nodes2 (ext2, right). Grown-further ext2 (
                parent-Ends (add_range f ql qr v) g' n.lazy len below elen (Holds-Extends ext2 left)
                  right (add_range-plus f g n.lazy v ql qr l r same) ht))))

  -- Over a node that stands for f, and a range that meets its segment, enough fuel is at hand and
  -- the new node stands for the updated values.
  pub update-Ends :
      (fuel : ℕ) {nodes : Arena} {i l r : ℕ} {f : Values}
      → Holds nodes i f l r
      → l ≤ r
      → r - l < fuel
      → ql ≤ r
      → l ≤ qr
      → Ends
          (Grown nodes (add_range f ql qr v) l r)
          (Stopped nodes)
          (update fuel i l r ql qr v nodes)
  unfolding update
  update-Ends zero h le enough p q = absurd (omega arith)
  update-Ends (suc fuel) {nodes} (leaf {l} {r} {n} at e x) le enough p q =
      let full : covers ql qr l r ≡ true = ground arith in
      rw (at, full)
        (Run.bind_lift _ nodes (inclusive_length-Gives l r le)
          (λ len elen. covered_step n len (leaf at e x) at x elen (omega arith))
          (λ e h. (h, Extends-refl nodes)))
  update-Ends (suc fuel) {nodes} (inner {l} {r} {f} {g} {n} at below a b same x) le enough p q =
      rw at (
        Run.bind_lift _ nodes (inclusive_length-Gives l r le)
          (λ len elen. elim (Bool-cases (covers ql qr l r)) [
            | inl full ↦ rw full (
                covered_step n len (inner at below a b same x) at x elen (covers→le ql qr l r full))
            | inr partial ↦ rw partial (
                partial_step n len (update fuel n.left_child l (midpoint l r) ql qr v)
                  (update fuel n.right_child (midpoint l r + 1) r ql qr v) below elen a b same
                  x.lazy_long
                  (λ go.
                    update-Ends fuel a (omega arith) (omega arith) (leb→le ql (midpoint l r) go) q)
                  (λ nodes' b' go.
                    let reach = ltb→lt (midpoint l r) qr go in
                    update-Ends fuel b' (omega arith) (omega arith) p (omega arith)))
          ])
          (λ e h. (h, Extends-refl nodes)))
