-- ===== src/Lazy/Preflight.antt =====
-- The recursion of validateUpdate in src/lazy_segment_tree.cpp.
use version_aware_lazy_segtr.Prelude.{
  ℕ, zero, suc, ◌+◌, ◌-◌, ◌*◌, ◌≤◌, ◌<◌, ◌≡◌, refl, ◌∙◌, inl, inr, true, false, Bool, arith, leb,
  ltb, covers, Bool-cases, covers→le, leb→le, leb→lt, ltb→lt, ltb→le, if◌then◌else◌,
}
use version_aware_lazy_segtr.Prelude.Int.{ℤ, pos, ◌+ℤ◌, ◌*ℤ◌}
use version_aware_lazy_segtr.Prelude.Result
use version_aware_lazy_segtr.Prelude.Result.{Result, ok, Gives, gives, IsOverflow}
use version_aware_lazy_segtr.Policy.{IsLong, checked_add}
use version_aware_lazy_segtr.Policy.Arithmetic.{Exact, checked_add-Gives}
use version_aware_lazy_segtr.Policy.SumAdd.{apply}
use version_aware_lazy_segtr.Policy.SumAdd.Exact.{apply-Gives}
use version_aware_lazy_segtr.Size.{midpoint, inclusive_length}
use version_aware_lazy_segtr.Size.Exact.{inclusive_length-Gives}
use version_aware_lazy_segtr.Segment.{Values, seg_sum, add_range, plus}
use version_aware_lazy_segtr.Segment.Sum.{
  Agree, Agree-sym, seg_sum-congr, seg_sum-add_range, add_range-plus, Agree-add_range_left,
  Agree-add_range_right,
}
use version_aware_lazy_segtr.Persistent.Step.{sum_of_children}
use version_aware_lazy_segtr.Lazy.{LazySegmentTree, element, validate_update}
use version_aware_lazy_segtr.Lazy.Holds.{Entry, Holds, leaf, inner, entry}
use version_aware_lazy_segtr.Lazy.Fits.{Fits, covered, partial}

-- The sum of one child: calculated, or read because its values do not change.
pub child_sum :
    {f g : Values} {l r : ℕ} {P : Type 0} (visit : Bool) (old : ℤ) (go : Result ℤ)
    → Exact (seg_sum f l r) old
    → (visit ≡ true → Gives (λ s. Exact (seg_sum g l r) s × P) IsOverflow go)
    → (visit ≡ false → Agree f g l r)
    → Gives
        (λ s. Exact (seg_sum g l r) s × (visit ≡ true → P))
        IsOverflow
        (if visit then go else ok old)
child_sum true old go x step same = Result.mono (step refl) (λ s (h, p). (h, λ e. p)) (λ e h. h)
child_sum {f} {g} {l} {r} false old go x step same =
    gives (rw (seg_sum-congr f g l r (same refl)) at x, λ e. cc)

module _ (v : ℤ) (hv : IsLong v) (ql qr : ℕ) (tree : LazySegmentTree) where
  abbrev Passes : ℕ → Values → ℕ → ℕ → Result ℤ → Type 0
  Passes node f l r =
      Gives (λ s. Exact (seg_sum (add_range f ql qr v) l r) s × Fits ql qr v tree node f l r)
        IsOverflow

  covered-Passes :
      {node l r : ℕ} {f : Values} {s t : ℤ} (len : ℕ)
      → Holds tree node f l r
      → Entry tree node s t f l r
      → len ≡ r + 1 - l
      → inclusive_length l r ≡ ok len
      → covers ql qr l r ≡ true
      → Passes node f l r (
          Result.◌>>=◌ (element tree.lazy node) λ tag.
            Result.◌>>◌
              (checked_add tag v)
              (Result.◌>>=◌ (element tree.tree node) λ sum. apply v sum len))
  covered-Passes {node} {l} {r} {f} {s} {t} len h e elen run full =
      let (p, q) = covers→le ql qr l r full in
      rw (e.tag_there, e.sum_there, elen)
        (Result.bind (Result.with_run (checked_add-Gives t v e.tag_long hv)) λ tag (xt, run_tag).
          Result.mono (Result.with_run (apply-Gives v s (r + 1 - l) hv e.sum_long))
            (λ total ((ex, hx), run_sum).
              let exact : s +ℤ v *ℤ pos (r + 1 - l) ≡ seg_sum (add_range f ql qr v) l r =
                rw (seg_sum-add_range f ql qr v l r p q, e.sum_exact) refl in
              let long = rw exact at hx in
              (
                (ex ∙ exact, long),
                covered (rw elen at run) full h e run_sum (ex ∙ exact, long) run_tag xt,
              ))
            (λ e h. h))

  -- The end of a partial descent.
  combined :
      {node l r : ℕ} {f g : Values} {s t x y : ℤ}
      → inclusive_length l r ≡ ok (r + 1 - l)
      → covers ql qr l r ≡ false
      → l < r
      → Entry tree node s t f l r
      → Agree f (plus g t) l r
      → Holds tree (2 * node + 1) g l (midpoint l r)
      → Holds tree (2 * node + 2) g (midpoint l r + 1) r
      → (leb ql (midpoint l r) ≡ true → Fits ql qr v tree (2 * node + 1) g l (midpoint l r))
      → (ltb (midpoint l r) qr ≡ true → Fits ql qr v tree (2 * node + 2) g (midpoint l r + 1) r)
      → Exact (seg_sum (add_range g ql qr v) l (midpoint l r)) x
      → Exact (seg_sum (add_range g ql qr v) (midpoint l r + 1) r) y
      → Passes node f l r (Result.◌>>=◌ (checked_add x y) λ children. apply t children (r + 1 - l))
  combined {l} {r} {f} {g} {t} {x} {y} len off below e same a b fa fb (ex, hx) (ey, hy) =
      let f' = add_range f ql qr v in
      let g' = add_range g ql qr v in
      let whole = sum_of_children f' g' t l r below (add_range-plus f g t v ql qr l r same) in
      Result.bind (Result.with_run (checked_add-Gives x y (rw ex hx) (rw ey hy)))
        λ c ((ec, hc), run_c).
          Result.mono (Result.with_run (apply-Gives t c (r + 1 - l) e.tag_long (rw ec hc)))
            (λ total ((et, ht), run_sum).
              let exact : c +ℤ t *ℤ pos (r + 1 - l) ≡ seg_sum f' l r =
                rw (whole, ← ex, ← ey, ← ec) refl in
              let long = rw exact at ht in
              (
                (et ∙ exact, long),
                partial len off below e same a b fa fb (rw (ex, ey) at run_c) run_sum
                    (et ∙ exact, long),
              ))
            (λ e h. h)

  -- For a node that stands for f, and a range that meets its segment, enough fuel is at hand.
  pub validate_update-Gives :
      (fuel : ℕ) {node l r : ℕ} {f : Values}
      → Holds tree node f l r
      → l ≤ r
      → r - l < fuel
      → ql ≤ r
      → l ≤ qr
      → Passes node f l r (validate_update fuel tree node l r ql qr v)
  unfolding validate_update
  validate_update-Gives zero h le enough p q = absurd (omega arith)
  validate_update-Gives (suc fuel) (leaf {l} {r} same e) le enough p q =
      let full : covers ql qr l r ≡ true = ground arith in
      Result.bind (Result.with_run (inclusive_length-Gives l r le))
        λ len (elen, run). rw full (covered-Passes len (leaf same e) e elen run full)
  validate_update-Gives (suc fuel) (inner {node} {l} {r} {f} {g} {t} below e a b same) le enough p
        q =
      let m = midpoint l r in
      let (sa, ta, ea) = entry a in
      let (sb, tb, eb) = entry b in
      let g' = add_range g ql qr v in
      let f' = add_range f ql qr v in
      Result.bind (Result.with_run (inclusive_length-Gives l r le)) λ len (elen, run).
        elim (Bool-cases (covers ql qr l r)) [
          | inl full ↦ rw full (covered-Passes len (inner below e a b same) e elen run full)
          | inr off ↦
              rw (off, ea.sum_there, eb.sum_there, e.tag_there, elen)
                (Result.bind
                  (child_sum {f = g} {g = g'} (leb ql m) sa _
                    (ea.sum_exact, rw ea.sum_exact at ea.sum_long)
                    (λ go.
                      validate_update-Gives fuel a (omega arith) (omega arith) (leb→le ql m go) q)
                    (λ skip. Agree-sym (Agree-add_range_left g ql qr v l m (leb→lt ql m skip))))
                  λ x ((ex, hx), fa).
                    Result.bind
                      (child_sum {f = g} {g = g'} (ltb m qr) sb _
                        (eb.sum_exact, rw eb.sum_exact at eb.sum_long)
                        (λ go.
                          let reach = ltb→lt m qr go in
                          validate_update-Gives fuel b (omega arith) (omega arith) p (omega arith))
                        (λ skip.
                          let after = ltb→le m qr skip in
                          Agree-sym (Agree-add_range_right g ql qr v (m + 1) r (omega arith))))
                      λ y ((ey, hy), fb).
                        combined (rw elen at run) off below e same a b fa fb (ex, hx) (ey, hy))
        ]
