-- ===== src/Checkpointing/Holds.antt =====
-- What a node of CheckpointingSegmentTree stands for: the values of its segment, less the tags of its
-- ancestors. A subtree takes the slots from its root's on, twice its segment's length less one.
use version_aware_lazy_segtr.Prelude.{
  ℕ, ◌+◌, ◌-◌, ◌*◌, ◌≤◌, ◌<◌, ◌≡◌, refl, sym, ◌∙◌, inl, inr, ◌⊎◌, some, List, arith, true, ltb,
  length, length-set, set, get_elem?, get_elem?-set_ne, lt_length_of_get_elem?,
}
use version_aware_lazy_segtr.Prelude.Run.{done}
use version_aware_lazy_segtr.Policy.{IsLong}
use version_aware_lazy_segtr.Size.{midpoint}
use version_aware_lazy_segtr.Segment.{Values, seg_sum, plus}
use version_aware_lazy_segtr.Segment.Sum.{Agree, seg_sum-congr}
use version_aware_lazy_segtr.Checkpointing.Nodes.{Node, store}

-- The slot of the right child, and the first slot behind a subtree.
abbrev pub right_index : (i l r : ℕ) → ℕ
right_index i l r = i + 2 * (midpoint l r + 1 - l)

abbrev pub past : (i l r : ℕ) → ℕ
past i l r = i + 2 * (r + 1 - l) - 1

-- A node's own tag is applied inside its sum, which is exact.
pub record IsExact (n : Node) (f : Values) (l r : ℕ) : Type 0 where
  pub sum_exact : n.sum ≡ seg_sum f l r
  pub sum_long : IsLong n.sum
  pub lazy_long : IsLong n.lazy

-- The children stand for values from which the node's tag is missing.
pub data Holds (nodes : List Node) : ℕ → Values → ℕ → ℕ → Type 0 where
  leaf :
      {i l r : ℕ} {f : Values} {n : Node}
      → get_elem? nodes i ≡ some n
      → l ≡ r
      → IsExact n f l r
      → Holds nodes i f l r
  inner :
      {i l r : ℕ} {f g : Values} {n : Node}
      → get_elem? nodes i ≡ some n
      → l < r
      → Holds nodes (i + 1) g l (midpoint l r)
      → Holds nodes (right_index i l r) g (midpoint l r + 1) r
      → Agree f (plus g n.lazy) l r
      → IsExact n f l r
      → Holds nodes i f l r

pub root_node :
    {nodes : List Node} {i l r : ℕ} {f : Values}
    → Holds nodes i f l r
    → (n : Node) × (get_elem? nodes i ≡ some n) × IsExact n f l r
root_node (leaf {n} at e x) = (n, at, x)
root_node (inner {n} at lt a b same x) = (n, at, x)

IsExact-congr :
    {n : Node} {f g : Values} {l r : ℕ} → IsExact n f l r → Agree f g l r → IsExact n g l r
IsExact-congr {n} {f} {g} {l} {r} x same = record {
  sum_exact = rw (← seg_sum-congr f g l r same) x.sum_exact;
  sum_long = x.sum_long;
  lazy_long = x.lazy_long;
}

-- Only the values of the segment matter.
pub Holds-congr :
    {nodes : List Node} {i l r : ℕ} {f g : Values}
    → Holds nodes i f l r
    → Agree f g l r
    → Holds nodes i g l r
Holds-congr (leaf at e x) same = leaf at e (IsExact-congr x same)
Holds-congr (inner at lt a b agree x) same =
    inner at lt a b (λ k p q. sym (same k p q) ∙ agree k p q) (IsExact-congr x same)

-- The slots of a subtree are as they were.
abbrev pub Kept : List Node → List Node → (i l r : ℕ) → Type 0
Kept nodes nodes' i l r = (k : ℕ) → i ≤ k → k < past i l r → get_elem? nodes' k ≡ get_elem? nodes k

pub Kept-left :
    (nodes nodes' : List Node) (i l r : ℕ)
    → l < r
    → Kept nodes nodes' i l r
    → Kept nodes nodes' (i + 1) l (midpoint l r)
Kept-left nodes nodes' i l r lt kept k p q = kept k (omega arith) (omega arith)

pub Kept-right :
    (nodes nodes' : List Node) (i l r : ℕ)
    → l < r
    → Kept nodes nodes' i l r
    → Kept nodes nodes' (right_index i l r) (midpoint l r + 1) r
Kept-right nodes nodes' i l r lt kept k p q = kept k (omega arith) (omega arith)

-- A node keeps its meaning while its subtree is left alone.
pub Holds-Kept :
    {nodes nodes' : List Node} {i l r : ℕ} {f : Values}
    → Kept nodes nodes' i l r
    → Holds nodes i f l r
    → Holds nodes' i f l r
Holds-Kept kept (leaf {i} at e x) = leaf (kept i (omega arith) (omega arith) ∙ at) e x
Holds-Kept kept (inner {i} {l} {r} at lt a b agree x) =
    inner (kept i (omega arith) (omega arith) ∙ at) lt (Holds-Kept (Kept-left _ _ i l r lt kept) a)
      (Holds-Kept (Kept-right _ _ i l r lt kept) b) agree x

-- What is outside a subtree's slots is as it was, and so is the size of the vector.
pub record Frame (i l r : ℕ) (nodes nodes' : List Node) : Type 0 where
  pub size_kept : length nodes' ≡ length nodes
  pub outside : (k : ℕ) → (k < i) ⊎ (past i l r ≤ k) → get_elem? nodes' k ≡ get_elem? nodes k

pub Frame-refl : (i l r : ℕ) (nodes : List Node) → Frame i l r nodes nodes
Frame-refl i l r nodes = record { size_kept = refl; outside = λ k off. refl }

pub Frame-trans :
    {i l r : ℕ} {a b c : List Node} → Frame i l r a b → Frame i l r b c → Frame i l r a c
Frame-trans x y = record {
  size_kept = y.size_kept ∙ x.size_kept;
  outside = λ k off. y.outside k off ∙ x.outside k off;
}

-- What a child's update leaves alone, its parent's leaves alone too.
pub Frame-left :
    {i l r : ℕ} {a b : List Node} → l < r → Frame (i + 1) l (midpoint l r) a b → Frame i l r a b
Frame-left lt x = record { size_kept = x.size_kept; outside = λ k off. x.outside k (ground arith) }

pub Frame-right :
    {i l r : ℕ} {a b : List Node}
    → l < r
    → Frame (right_index i l r) (midpoint l r + 1) r a b
    → Frame i l r a b
Frame-right lt x = record { size_kept = x.size_kept; outside = λ k off. x.outside k (ground arith) }

-- A write of a node.
pub Frame-store :
    (i l r : ℕ) (n : Node) (nodes : List Node) → l ≤ r → Frame i l r nodes (set nodes i n)
Frame-store i l r n nodes le = record {
  size_kept = length-set nodes i n;
  outside = λ k off. get_elem?-set_ne nodes i k n (λ e. ground arith);
}

-- The left child's update leaves the right child and the parent alone, and so on.
pub right_apart :
    (i l r : ℕ) {a b : List Node}
    → l < r
    → Frame (i + 1) l (midpoint l r) a b
    → Kept a b (right_index i l r) (midpoint l r + 1) r
right_apart i l r lt x k p q = x.outside k (inr (omega arith))

pub left_apart :
    (i l r : ℕ) {a b : List Node}
    → l < r
    → Frame (right_index i l r) (midpoint l r + 1) r a b
    → Kept a b (i + 1) l (midpoint l r)
left_apart i l r lt x k p q = x.outside k (inl (omega arith))

pub store_apart_left :
    (i l r : ℕ) (n : Node) (nodes : List Node) → Kept nodes (set nodes i n) (i + 1) l (midpoint l r)
store_apart_left i l r n nodes k p q = get_elem?-set_ne nodes i k n (λ e. omega arith)

pub store_apart_right :
    (i l r : ℕ) (n : Node) (nodes : List Node)
    → Kept nodes (set nodes i n) (right_index i l r) (midpoint l r + 1) r
store_apart_right i l r n nodes k p q = get_elem?-set_ne nodes i k n (λ e. omega arith)

-- A write of a slot that is there.
pub store-done :
    (i : ℕ) (n m : Node) (nodes : List Node)
    → get_elem? nodes i ≡ some m
    → store i n nodes ≡ done tt (set nodes i n)
store-done i n m nodes at =
    let inside : ltb i (length nodes) ≡ true =
      ground (arith, lt_length_of_get_elem? nodes i m at) in
    rw inside
