-- ===== src/Tagless/Holds.antt =====
-- What a node without a tag stands for: the values of its segment, whose sum it keeps.
use version_aware_lazy_segtr.Prelude.{ℕ, ◌+◌, ◌<◌, ◌≡◌, arith, some, get_elem?}
use version_aware_lazy_segtr.Policy.{IsLong}
use version_aware_lazy_segtr.Size.{midpoint}
use version_aware_lazy_segtr.Segment.{Values, seg_sum}
use version_aware_lazy_segtr.Segment.Sum.{Agree, seg_sum-congr}
use version_aware_lazy_segtr.Segment.Canonical.{Canonical}
use version_aware_lazy_segtr.Arena.{Extends, Extends-get}
use version_aware_lazy_segtr.Tagless.{Node, Arena}

abbrev pub IsExact : Node → Values → ℕ → ℕ → Type 0
IsExact n f l r = (n.sum ≡ seg_sum f l r) × IsLong n.sum

pub data Holds (nodes : Arena) : ℕ → Values → ℕ → ℕ → Type 0 where
  leaf :
      {i l r : ℕ} {f : Values} {n : Node}
      → get_elem? nodes i ≡ some n
      → l ≡ r
      → IsExact n f l r
      → Holds nodes i f l r
  inner :
      {i l r : ℕ} {f : Values} {n : Node}
      → get_elem? nodes i ≡ some n
      → l < r
      → Holds nodes n.left_child f l (midpoint l r)
      → Holds nodes n.right_child f (midpoint l r + 1) r
      → IsExact n f l r
      → Holds nodes i f l r

pub root_node :
    {nodes : Arena} {i l r : ℕ} {f : Values}
    → Holds nodes i f l r
    → (n : Node) × (get_elem? nodes i ≡ some n) × IsExact n f l r
root_node (leaf {n} at e x) = (n, at, x)
root_node (inner {n} at lt a b x) = (n, at, x)

IsExact-congr :
    (n : Node) {f g : Values} {l r : ℕ} → IsExact n f l r → Agree f g l r → IsExact n g l r
IsExact-congr n {f} {g} {l} {r} (e, h) same = (rw (← seg_sum-congr f g l r same) e, h)

-- Only the values of the segment matter.
pub Holds-congr :
    {nodes : Arena} {i l r : ℕ} {f g : Values}
    → Holds nodes i f l r
    → Agree f g l r
    → Holds nodes i g l r
Holds-congr (leaf {n} at e x) same = leaf at e (IsExact-congr n x same)
Holds-congr (inner {l} {r} {n} at lt a b x) same =
    inner at lt (Holds-congr a (λ k p q. same k p (omega arith)))
      (Holds-congr b (λ k p q. same k (omega arith) q)) (IsExact-congr n x same)

-- A node keeps its meaning when the arena grows.
pub Holds-Extends :
    {nodes nodes' : Arena} {i l r : ℕ} {f : Values}
    → Extends nodes nodes'
    → Holds nodes i f l r
    → Holds nodes' i f l r
Holds-Extends x (leaf {i} {n} at e exact) = leaf (Extends-get i n x at) e exact
Holds-Extends x (inner {i} {n} at lt a b exact) =
    inner (Extends-get i n x at) lt (Holds-Extends x a) (Holds-Extends x b) exact

-- Every canonical sum stands in a node, so that the numeric contract holds.
pub Holds-Canonical :
    {nodes : Arena} {i l r : ℕ} {f : Values} → Holds nodes i f l r → Canonical f l r
Holds-Canonical (leaf at e (s, h)) = Canonical.leaf e (rw s at h)
Holds-Canonical (inner at lt a b (s, h)) =
    Canonical.inner lt (Holds-Canonical a) (Holds-Canonical b) (rw s at h)
