-- ===== src/Checkpointing/Fits.antt =====
-- What the preflight of an update of CheckpointingSegmentTree finds out about the nodes that it
-- visits.
use version_aware_lazy_segtr.Prelude.{
  ℕ, ◌+◌, ◌-◌, ◌<◌, ◌≡◌, ◌∙◌, true, false, ◌||◌, some, List, arith, leb, ltb, covers, get_elem?,
}
use version_aware_lazy_segtr.Prelude.Int.{ℤ, ◌+ℤ◌}
use version_aware_lazy_segtr.Prelude.Result.{ok}
use version_aware_lazy_segtr.Policy.{checked_add}
use version_aware_lazy_segtr.Policy.Arithmetic.{Exact}
use version_aware_lazy_segtr.Policy.SumAdd.{apply}
use version_aware_lazy_segtr.Size.{midpoint, inclusive_length}
use version_aware_lazy_segtr.Segment.{Values, seg_sum, add_range, plus}
use version_aware_lazy_segtr.Segment.Sum.{Agree}
use version_aware_lazy_segtr.Checkpointing.Nodes.{Node, right_child}
use version_aware_lazy_segtr.Checkpointing.Holds.{
  IsExact, Holds, Kept, Holds-Kept, Kept-left, Kept-right, right_index,
}

module _ (ql qr : ℕ) (v : ℤ) where
  pub data Fits (nodes : List Node) : ℕ → Values → ℕ → ℕ → Type 0 where
    covered :
        {i l r : ℕ} {f : Values} {n : Node} {s' t' : ℤ}
        → (ltb r ql || ltb qr l) ≡ false
        → inclusive_length l r ≡ ok (r + 1 - l)
        → covers ql qr l r ≡ true
        → l < r + 1
        → Holds nodes i f l r
        → get_elem? nodes i ≡ some n
        → IsExact n f l r
        → apply v n.sum (r + 1 - l) ≡ ok s'
        → Exact (seg_sum (add_range f ql qr v) l r) s'
        → checked_add n.lazy v ≡ ok t'
        → Exact (n.lazy +ℤ v) t'
        → Fits nodes i f l r
    partial :
        {i l r : ℕ} {f g : Values} {n : Node} {c s' : ℤ}
        → (ltb r ql || ltb qr l) ≡ false
        → inclusive_length l r ≡ ok (r + 1 - l)
        → covers ql qr l r ≡ false
        → l < r
        → right_child i l (midpoint l r) ≡ ok (right_index i l r)
        → get_elem? nodes i ≡ some n
        → IsExact n f l r
        → Agree f (plus g n.lazy) l r
        → Holds nodes (i + 1) g l (midpoint l r)
        → Holds nodes (right_index i l r) g (midpoint l r + 1) r
        → (leb ql (midpoint l r) ≡ true → Fits nodes (i + 1) g l (midpoint l r))
        → (ltb (midpoint l r) qr ≡ true → Fits nodes (right_index i l r) g (midpoint l r + 1) r)
        → checked_add
            (seg_sum (add_range g ql qr v) l (midpoint l r))
            (seg_sum (add_range g ql qr v) (midpoint l r + 1) r)
          ≡ ok c
        → apply n.lazy c (r + 1 - l) ≡ ok s'
        → Exact (seg_sum (add_range f ql qr v) l r) s'
        → Fits nodes i f l r

  -- The finding stays true while the subtree is left alone.
  pub Fits-Kept :
      {nodes nodes' : List Node} {i l r : ℕ} {f : Values}
      → Kept nodes nodes' i l r
      → Fits nodes i f l r
      → Fits nodes' i f l r
  Fits-Kept kept (covered {i} meets len full le h at x sum exact tag exact') =
      covered meets len full le (Holds-Kept kept h) (kept i (omega arith) (omega arith) ∙ at) x sum
        exact tag exact'
  Fits-Kept kept
        (partial {i} {l} {r} meets len off below right at x same a b fa fb children sum exact) =
      let kept_left = Kept-left _ _ i l r below kept in
      let kept_right = Kept-right _ _ i l r below kept in
      partial meets len off below right (kept i (omega arith) (omega arith) ∙ at) x same
        (Holds-Kept kept_left a) (Holds-Kept kept_right b) (λ go. Fits-Kept kept_left (fa go))
        (λ go. Fits-Kept kept_right (fb go)) children sum exact
