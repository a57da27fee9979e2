-- ===== src/Lazy/Holds.antt =====
-- What a node of LazySegmentTree stands for: the values of its segment, less the tags of its
-- ancestors. Only the entries of its own subtree matter.
use version_aware_lazy_segtr.Prelude.{
  ℕ, ◌+◌, ◌*◌, ◌<◌, ◌≡◌, refl, sym, ◌∙◌, inl, inr, some, get_elem?,
}
use version_aware_lazy_segtr.Prelude.Int.{ℤ}
use version_aware_lazy_segtr.Policy.{IsLong}
use version_aware_lazy_segtr.Size.{midpoint}
use version_aware_lazy_segtr.Segment.{Values, seg_sum, plus}
use version_aware_lazy_segtr.Segment.Sum.{Agree, seg_sum-congr}
use version_aware_lazy_segtr.Lazy.{LazySegmentTree}
use version_aware_lazy_segtr.Lazy.Below.{Below, here, Below-child}

-- The two entries of a node: the exact sum of its segment, and its tag.
pub record Entry (tree : LazySegmentTree) (node : ℕ) (sum tag : ℤ) (f : Values) (l r : ℕ)
    : Type 0 where
  pub sum_there : get_elem? tree.tree node ≡ some sum
  pub tag_there : get_elem? tree.lazy node ≡ some tag
  pub sum_exact : sum ≡ seg_sum f l r
  pub sum_long : IsLong sum
  pub tag_long : IsLong tag

-- The children stand for values from which the node's tag is missing.
pub data Holds (tree : LazySegmentTree) : ℕ → Values → ℕ → ℕ → Type 0 where
  leaf :
      {node l r : ℕ} {f : Values} {s t : ℤ}
      → l ≡ r
      → Entry tree node s t f l r
      → Holds tree node f l r
  inner :
      {node l r : ℕ} {f g : Values} {s t : ℤ}
      → l < r
      → Entry tree node s t f l r
      → Holds tree (2 * node + 1) g l (midpoint l r)
      → Holds tree (2 * node + 2) g (midpoint l r + 1) r
      → Agree f (plus g t) l r
      → Holds tree node f l r

pub entry :
    {tree : LazySegmentTree} {node l r : ℕ} {f : Values}
    → Holds tree node f l r
    → (s t : ℤ) × Entry tree node s t f l r
entry (leaf {s} {t} same e) = (s, t, e)
entry (inner {s} {t} lt e a b agree) = (s, t, e)

-- The two entries at an index are as they were.
abbrev pub KeptAt : LazySegmentTree → LazySegmentTree → ℕ → Type 0
KeptAt tree tree' k =
    (get_elem? tree'.tree k ≡ get_elem? tree.tree k)
    × (get_elem? tree'.lazy k ≡ get_elem? tree.lazy k)

-- All entries of a subtree are as they were.
abbrev pub KeptBelow : LazySegmentTree → LazySegmentTree → ℕ → Type 0
KeptBelow tree tree' node = (k : ℕ) → Below node k → KeptAt tree tree' k

module _ (tree tree' : LazySegmentTree) where
  pub Entry-kept :
      {node l r : ℕ} {f : Values} {s t : ℤ}
      → KeptAt tree tree' node
      → Entry tree node s t f l r
      → Entry tree' node s t f l r
  Entry-kept (p, q) e = record {
    sum_there = p ∙ e.sum_there;
    tag_there = q ∙ e.tag_there;
    sum_exact = e.sum_exact;
    sum_long = e.sum_long;
    tag_long = e.tag_long;
  }

  pub left_kept : (node : ℕ) → KeptBelow tree tree' node → KeptBelow tree tree' (2 * node + 1)
  left_kept node kept k b = kept k (Below-child (inl refl) b)

  pub right_kept : (node : ℕ) → KeptBelow tree tree' node → KeptBelow tree tree' (2 * node + 2)
  right_kept node kept k b = kept k (Below-child (inr refl) b)

  -- A node keeps its meaning while its subtree is left alone.
  pub Holds-kept :
      {node l r : ℕ} {f : Values}
      → KeptBelow tree tree' node
      → Holds tree node f l r
      → Holds tree' node f l r
  Holds-kept kept (leaf {node} same e) = leaf same (Entry-kept (kept node (here refl)) e)
  Holds-kept kept (inner {node} lt e a b agree) =
      inner lt (Entry-kept (kept node (here refl)) e) (Holds-kept (left_kept node kept) a)
        (Holds-kept (right_kept node kept) b) agree

Entry-congr :
    {tree : LazySegmentTree} {node l r : ℕ} {f g : Values} {s t : ℤ}
    → Entry tree node s t f l r
    → Agree f g l r
    → Entry tree node s t g l r
Entry-congr {l} {r} {f} {g} e same = record {
  sum_there = e.sum_there;
  tag_there = e.tag_there;
  sum_exact = rw (← seg_sum-congr f g l r same) e.sum_exact;
  sum_long = e.sum_long;
  tag_long = e.tag_long;
}

-- Only the values of the segment matter.
pub Holds-congr :
    {tree : LazySegmentTree} {node l r : ℕ} {f g : Values}
    → Holds tree node f l r
    → Agree f g l r
    → Holds tree node g l r
Holds-congr (leaf e x) same = leaf e (Entry-congr x same)
Holds-congr (inner lt e a b agree) same =
    inner lt (Entry-congr e same) a b (λ k p q. sym (same k p q) ∙ agree k p q)
