-- ===== src/Lazy/Fits.antt =====
-- What the preflight of an update of LazySegmentTree finds out about the nodes that it visits.
use version_aware_lazy_segtr.Prelude.{
  ℕ, ◌+◌, ◌-◌, ◌*◌, ◌<◌, ◌≡◌, refl, true, false, leb, ltb, covers,
}
use version_aware_lazy_segtr.Prelude.Int.{ℤ, ◌+ℤ◌}
use version_aware_lazy_segtr.Policy.{checked_add}
use version_aware_lazy_segtr.Prelude.Result.{ok}
use version_aware_lazy_segtr.Policy.Arithmetic.{Exact}
use version_aware_lazy_segtr.Policy.SumAdd.{apply}
use version_aware_lazy_segtr.Size.{midpoint, inclusive_length}
use version_aware_lazy_segtr.Segment.{Values, seg_sum, add_range, plus}
use version_aware_lazy_segtr.Segment.Sum.{Agree}
use version_aware_lazy_segtr.Lazy.{LazySegmentTree}
use version_aware_lazy_segtr.Lazy.Below.{here}
use version_aware_lazy_segtr.Lazy.Holds.{
  Entry, Holds, KeptBelow, Entry-kept, Holds-kept, left_kept, right_kept,
}

module _ (ql qr : ℕ) (v : ℤ) where
  pub data Fits (tree : LazySegmentTree) : ℕ → Values → ℕ → ℕ → Type 0 where
    covered :
        {node l r : ℕ} {f : Values} {s t s' t' : ℤ}
        → inclusive_length l r ≡ ok (r + 1 - l)
        → covers ql qr l r ≡ true
        → Holds tree node f l r
        → Entry tree node s t f l r
        → apply v s (r + 1 - l) ≡ ok s'
        → Exact (seg_sum (add_range f ql qr v) l r) s'
        → checked_add t v ≡ ok t'
        → Exact (t +ℤ v) t'
        → Fits tree node f l r
    partial :
        {node l r : ℕ} {f g : Values} {s t c s' : ℤ}
        → inclusive_length l r ≡ ok (r + 1 - l)
        → covers ql qr l r ≡ false
        → l < r
        → Entry tree node s t f l r
        → Agree f (plus g t) l r
        → Holds tree (2 * node + 1) g l (midpoint l r)
        → Holds tree (2 * node + 2) g (midpoint l r + 1) r
        → (leb ql (midpoint l r) ≡ true → Fits tree (2 * node + 1) g l (midpoint l r))
        → (ltb (midpoint l r) qr ≡ true → Fits tree (2 * node + 2) g (midpoint l r + 1) r)
        → checked_add
            (seg_sum (add_range g ql qr v) l (midpoint l r))
            (seg_sum (add_range g ql qr v) (midpoint l r + 1) r)
          ≡ ok c
        → apply t c (r + 1 - l) ≡ ok s'
        → Exact (seg_sum (add_range f ql qr v) l r) s'
        → Fits tree node f l r

  module _ (tree tree' : LazySegmentTree) where
    -- The finding stays true while the subtree is left alone.
    pub Fits-kept :
        {node l r : ℕ} {f : Values}
        → KeptBelow tree tree' node
        → Fits tree node f l r
        → Fits tree' node f l r
    Fits-kept kept (covered {node} len full h e sum exact tag exact') =
        covered len full (Holds-kept tree tree' kept h)
          (Entry-kept tree tree' (kept node (here refl)) e) sum exact tag exact'
    Fits-kept kept (partial {node} len off below e same a b fa fb children sum exact) =
        partial len off below (Entry-kept tree tree' (kept node (here refl)) e) same
          (Holds-kept tree tree' (left_kept tree tree' node kept) a)
          (Holds-kept tree tree' (right_kept tree tree' node kept) b)
          (λ go. Fits-kept (left_kept tree tree' node kept) (fa go))
          (λ go. Fits-kept (right_kept tree tree' node kept) (fb go)) children sum exact
