-- ===== src/Persistent/Holds.antt =====
-- What a node of PersistentLazySegmentTree stands for: the values of its segment, less the lazy
-- tags of its ancestors.
use version_aware_lazy_segtr.Prelude.{ℕ, ◌+◌, ◌<◌, ◌≡◌, sym, ◌∙◌, some, get_elem?}
use version_aware_lazy_segtr.Policy.{IsLong}
use version_aware_lazy_segtr.Size.{midpoint}
use version_aware_lazy_segtr.Segment.{Values, seg_sum, plus}
use version_aware_lazy_segtr.Segment.Sum.{Agree, seg_sum-congr}
use version_aware_lazy_segtr.Arena.{Extends, Extends-get}
use version_aware_lazy_segtr.Persistent.Write.{Node, Arena}

-- A node's own tag is applied inside its sum, which is exact.
pub record IsExact (n : Node) (f : Values) (l r : ℕ) : Type 0 where
  pub sum_exact : n.sum ≡ seg_sum f l r
  pub sum_long : IsLong n.sum
  pub lazy_long : IsLong n.lazy

-- The node at index i stands for f on the segment from l to r. The children stand for values from
-- which the node's tag is missing.
pub data Holds (nodes : Arena) : ℕ → Values → ℕ → ℕ → Type 0 where
  leaf :
      {i l r : ℕ} {f : Values} {n : Node}
      → get_elem? nodes i ≡ some n
      → l ≡ r
      → IsExact n f l r
      → Holds nodes i f l r
  inner :
      {i l r : ℕ} {f g : Values} {n : Node}
      → get_elem? nodes i ≡ some n
      → l < r
      → Holds nodes n.left_child g l (midpoint l r)
      → Holds nodes n.right_child g (midpoint l r + 1) r
      → Agree f (plus g n.lazy) l r
      → IsExact n f l r
      → Holds nodes i f l r

pub root_node :
    {nodes : Arena} {i l r : ℕ} {f : Values}
    → Holds nodes i f l r
    → (n : Node) × (get_elem? nodes i ≡ some n) × IsExact n f l r
root_node (leaf {n} at e x) = (n, at, x)
root_node (inner {n} at lt a b same x) = (n, at, x)

IsExact-congr :
    {n : Node} {f g : Values} {l r : ℕ} → IsExact n f l r → Agree f g l r → IsExact n g l r
IsExact-congr {n} {f} {g} {l} {r} x same = record {
  sum_exact = rw (← seg_sum-congr f g l r same) x.sum_exact;
  sum_long = x.sum_long;
  lazy_long = x.lazy_long;
}

-- Only the values of the segment matter.
pub Holds-congr :
    {nodes : Arena} {i l r : ℕ} {f g : Values}
    → Holds nodes i f l r
    → Agree f g l r
    → Holds nodes i g l r
Holds-congr (leaf at e x) same = leaf at e (IsExact-congr x same)
Holds-congr (inner at lt a b agree x) same =
    inner at lt a b (λ k p q. sym (same k p q) ∙ agree k p q) (IsExact-congr x same)

-- A node keeps its meaning when the arena grows.
pub Holds-Extends :
    {nodes nodes' : Arena} {i l r : ℕ} {f : Values}
    → Extends nodes nodes'
    → Holds nodes i f l r
    → Holds nodes' i f l r
Holds-Extends x (leaf {i} {n} at e exact) = leaf (Extends-get i n x at) e exact
Holds-Extends x (inner {i} {n} at lt a b agree exact) =
    inner (Extends-get i n x at) lt (Holds-Extends x a) (Holds-Extends x b) agree exact
