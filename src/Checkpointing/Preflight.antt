-- ===== src/Checkpointing/Preflight.antt =====
-- The recursion of validateUpdate in src/checkpointing_segment_tree.cpp.
use version_aware_lazy_segtr.Prelude.{
  ◌||◌, some, get_elem?, List, ℕ, zero, suc, ◌+◌, ◌-◌, ◌≤◌, ◌<◌, ◌≡◌, refl, ◌∙◌, inl, inr, true,
  false, arith, leb, ltb, covers, Bool-cases, covers→le, leb→le, leb→lt, ltb→lt, ltb→le,
}
use version_aware_lazy_segtr.Prelude.Int.{ℤ, pos, ◌+ℤ◌, ◌*ℤ◌}
use version_aware_lazy_segtr.Prelude.Result
use version_aware_lazy_segtr.Prelude.Result.{Result, ok, Gives, gives, IsOverflow}
use version_aware_lazy_segtr.Policy.{IsLong, checked_add}
use version_aware_lazy_segtr.Policy.Arithmetic.{Exact, checked_add-Gives}
use version_aware_lazy_segtr.Policy.SumAdd.{apply}
use version_aware_lazy_segtr.Policy.SumAdd.Exact.{apply-Gives}
use version_aware_lazy_segtr.Size.{midpoint, inclusive_length}
use version_aware_lazy_segtr.Size.Exact.{inclusive_length-Gives}
use version_aware_lazy_segtr.Segment.{Values, seg_sum, add_range, plus}
use version_aware_lazy_segtr.Segment.Sum.{
  Agree, Agree-sym, seg_sum-add_range, add_range-plus, Agree-add_range_left, Agree-add_range_right,
}
use version_aware_lazy_segtr.Persistent.Step.{sum_of_children}
use version_aware_lazy_segtr.Checkpointing.Nodes.{Node, right_child, validate_update}
use version_aware_lazy_segtr.Checkpointing.Holds.{
  IsExact, Holds, leaf, inner, root_node, right_index,
}
use version_aware_lazy_segtr.Checkpointing.Layout.{right_child-Gives}
use version_aware_lazy_segtr.Checkpointing.Fits.{Fits, covered, partial}
use version_aware_lazy_segtr.Lazy.Preflight.{child_sum}

module _ (v : ℤ) (hv : IsLong v) (ql qr : ℕ) (nodes : List Node) where
  abbrev Passes : ℕ → Values → ℕ → ℕ → Result ℤ → Type 0
  Passes i f l r =
      Gives (λ s. Exact (seg_sum (add_range f ql qr v) l r) s × Fits ql qr v nodes i f l r)
        IsOverflow

  covered-Passes :
      {i l r : ℕ} {f : Values} (n : Node)
      → Holds nodes i f l r
      → get_elem? nodes i ≡ some n
      → IsExact n f l r
      → l ≤ r
      → covers ql qr l r ≡ true
      → Passes i f l r (
          Result.◌>>◌
            (checked_add n.lazy v)
            (Result.◌>>=◌ (inclusive_length l r) λ length. apply v n.sum length))
  covered-Passes {i} {l} {r} {f} n h at x le full =
      let (p, q) = covers→le ql qr l r full in
      let meets : (ltb r ql || ltb qr l) ≡ false = ground arith in
      Result.bind (Result.with_run (checked_add-Gives n.lazy v x.lazy_long hv)) λ tag (xt, run_tag).
        Result.bind (Result.with_run (inclusive_length-Gives l r le)) λ len (elen, run). rw elen (
          Result.mono (Result.with_run (apply-Gives v n.sum (r + 1 - l) hv x.sum_long))
            (λ total ((ex, hx), run_sum).
              let exact : n.sum +ℤ v *ℤ pos (r + 1 - l) ≡ seg_sum (add_range f ql qr v) l r =
                rw (seg_sum-add_range f ql qr v l r p q, x.sum_exact) refl in
              let long = rw exact at hx in
              (
                (ex ∙ exact, long),
                covered meets (rw elen at run) full (omega arith) h at x run_sum (ex ∙ exact, long)
                    run_tag xt,
              ))
            (λ e h. h))

  -- The end of a partial descent.
  combined :
      {i l r : ℕ} {f g : Values} (n : Node) {x y : ℤ}
      → (ltb r ql || ltb qr l) ≡ false
      → covers ql qr l r ≡ false
      → l < r
      → right_child i l (midpoint l r) ≡ ok (right_index i l r)
      → get_elem? nodes i ≡ some n
      → IsExact n f l r
      → Agree f (plus g n.lazy) l r
      → Holds nodes (i + 1) g l (midpoint l r)
      → Holds nodes (right_index i l r) g (midpoint l r + 1) r
      → (leb ql (midpoint l r) ≡ true → Fits ql qr v nodes (i + 1) g l (midpoint l r))
      → (ltb (midpoint l r) qr ≡ true
          → Fits ql qr v nodes (right_index i l r) g (midpoint l r + 1) r)
      → Exact (seg_sum (add_range g ql qr v) l (midpoint l r)) x
      → Exact (seg_sum (add_range g ql qr v) (midpoint l r + 1) r) y
      → Passes i f l r (
          Result.◌>>=◌
            (checked_add x y)
            λ children. Result.◌>>=◌ (inclusive_length l r) λ length. apply n.lazy children length)
  combined {l} {r} {f} {g} n {x} {y} meets off below right at e same a b fa fb (ex, hx) (ey, hy) =
      let f' = add_range f ql qr v in
      let g' = add_range g ql qr v in
      let whole =
        sum_of_children f' g' n.lazy l r below (add_range-plus f g n.lazy v ql qr l r same) in
      Result.bind (Result.with_run (checked_add-Gives x y (rw ex hx) (rw ey hy)))
        λ c ((ec, hc), run_c).
          Result.bind (Result.with_run (inclusive_length-Gives l r (omega arith)))
            λ len (elen, run). rw elen (
              Result.mono
                (Result.with_run (apply-Gives n.lazy c (r + 1 - l) e.lazy_long (rw ec hc)))
                (λ total ((et, ht), run_sum).
                  let exact : c +ℤ n.lazy *ℤ pos (r + 1 - l) ≡ seg_sum f' l r =
                    rw (whole, ← ex, ← ey, ← ec) refl in
                  let long = rw exact at ht in
                  (
                    (et ∙ exact, long),
                    partial meets (rw elen at run) off below right at e same a b fa fb
                        (rw (ex, ey) at run_c) run_sum (et ∙ exact, long),
                  ))
                (λ e h. h))

  -- For a node that stands for f, and a range that meets its segment, enough fuel is at hand.
  pub validate_update-Gives :
      (fuel : ℕ) {i l r : ℕ} {f : Values}
      → Holds nodes i f l r
      → l ≤ r
      → r - l < fuel
      → ql ≤ r
      → l ≤ qr
      → Passes i f l r (validate_update fuel nodes i l r ql qr v)
  unfolding validate_update
  validate_update-Gives zero h le enough p q = absurd (omega arith)
  validate_update-Gives (suc fuel) (leaf {l} {r} {n} at same x) le enough p q =
      let full : covers ql qr l r ≡ true = ground arith in
      rw (at, full) (covered-Passes n (leaf at same x) at x le full)
  validate_update-Gives (suc fuel) (inner {i} {l} {r} {f} {g} {n} at below a b same x) le enough p
        q =
      let m = midpoint l r in
      let (na, at_a, xa) = root_node a in
      let (nb, at_b, xb) = root_node b in
      let g' = add_range g ql qr v in
      let meets : (ltb r ql || ltb qr l) ≡ false = ground arith in
      elim (Bool-cases (covers ql qr l r)) [
        | inl full ↦ rw (at, full) (covered-Passes n (inner at below a b same x) at x le full)
        | inr off ↦
            rw (at, off)
              (Result.bind (Result.with_run (right_child-Gives i l r le)) λ j (ej, right).
                rw (ej, at_a, at_b)
                  (Result.bind
                    (child_sum {f = g} {g = g'} (leb ql m) na.sum _
                      (xa.sum_exact, rw xa.sum_exact at xa.sum_long)
                      (λ go.
                        validate_update-Gives fuel a (omega arith) (omega arith) (leb→le ql m go) q)
                      (λ skip. Agree-sym (Agree-add_range_left g ql qr v l m (leb→lt ql m skip))))
                    λ z ((ez, hz), fa).
                      Result.bind
                        (child_sum {f = g} {g = g'} (ltb m qr) nb.sum _
                          (xb.sum_exact, rw xb.sum_exact at xb.sum_long)
                          (λ go.
                            let reach = ltb→lt m qr go in
                            validate_update-Gives fuel b (omega arith) (omega arith) p
                              (omega arith))
                          (λ skip.
                            let after = ltb→le m qr skip in
                            Agree-sym (Agree-add_range_right g ql qr v (m + 1) r (omega arith))))
                        λ y ((ey, hy), fb).
                          combined n meets off below (rw ej at right) at x same a b fa fb (ez, hz)
                            (ey, hy)))
      ]
