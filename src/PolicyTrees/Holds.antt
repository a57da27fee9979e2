-- ===== src/PolicyTrees/Holds.antt =====
-- What a node of PathCopyingActionTree stands for: the elements of its segment, without the tags of
-- its ancestors. Its own tag is applied in its aggregate, and missing from its children.
use version_aware_lazy_segtr.Prelude.{ℕ, ◌+◌, ◌≤◌, ◌<◌, ◌≡◌, sym, ◌∙◌, arith, some, get_elem?}
use version_aware_lazy_segtr.Size.{midpoint}
use version_aware_lazy_segtr.Arena.{Extends, Extends-get}
use version_aware_lazy_segtr.Policy.Interface.{Policy, Laws}
use version_aware_lazy_segtr.PolicyTrees.PathCopying.{Node, Arena}
use version_aware_lazy_segtr.PolicyTrees.Fold.{Elements, fold, fold-congr, acted}

module _ {A B : Type 0} {p : Policy A B} (laws : Laws p) where
  -- Two arrays that agree on a segment.
  abbrev pub Agree : Elements A → Elements A → ℕ → ℕ → Type 0
  Agree f g l r = (k : ℕ) → l ≤ k → k ≤ r → f k ≡ g k

  abbrev pub AllSound : Elements A → ℕ → ℕ → Type 0
  AllSound f l r = (k : ℕ) → l ≤ k → k ≤ r → laws.Sound (f k)

  abbrev pub IsExact : Node A B → Elements A → ℕ → ℕ → Type 0
  IsExact n f l r = (n.aggregate ≡ fold laws.plus f l r) × laws.Fit n.aggregate × laws.Good n.tag

  pub data Holds (nodes : Arena A B) : ℕ → Elements A → ℕ → ℕ → Type 0 where
    leaf :
        {i l r : ℕ} {f : Elements A} {n : Node A B}
        → get_elem? nodes i ≡ some n
        → l ≡ r
        → IsExact n f l r
        → AllSound f l r
        → Holds nodes i f l r
    inner :
        {i l r : ℕ} {f g : Elements A} {n : Node A B}
        → get_elem? nodes i ≡ some n
        → l < r
        → IsExact n f l r
        → AllSound f l r
        → Holds nodes n.left_child g l (midpoint l r)
        → Holds nodes n.right_child g (midpoint l r + 1) r
        → Agree f (acted laws n.tag g) l r
        → Holds nodes i f l r

  -- The node itself, and what is known of it.
  abbrev pub top : {nodes : Arena A B} {i l r : ℕ} {f : Elements A} → Holds nodes i f l r → Node A B
  top (leaf {n} at e x s) = n
  top (inner {n} at lt x s a b same) = n

  pub root_node :
      {nodes : Arena A B} {i l r : ℕ} {f : Elements A} (h : Holds nodes i f l r)
      → (get_elem? nodes i ≡ some (top h)) × IsExact (top h) f l r × AllSound f l r
  root_node (leaf at e x s) = (at, x, s)
  root_node (inner at lt x s a b same) = (at, x, s)

  pub ordered : {nodes : Arena A B} {i l r : ℕ} {f : Elements A} → Holds nodes i f l r → l ≤ r
  ordered (leaf at e x s) = omega arith
  ordered (inner at lt x s a b same) = omega arith

  IsExact-congr :
      (n : Node A B) {f g : Elements A} {l r : ℕ}
      → l ≤ r
      → IsExact n f l r
      → Agree f g l r
      → IsExact n g l r
  IsExact-congr n {f} {g} {l} {r} le (e, fit, good) same =
      (e ∙ fold-congr laws.plus f g l r le same, fit, good)

  AllSound-congr : {f g : Elements A} {l r : ℕ} → AllSound f l r → Agree f g l r → AllSound g l r
  AllSound-congr s same k a b = rw (← same k a b) (s k a b)

  -- Only the elements of the segment matter.
  pub Holds-congr :
      {nodes : Arena A B} {i l r : ℕ} {f g : Elements A}
      → Holds nodes i f l r
      → Agree f g l r
      → Holds nodes i g l r
  Holds-congr (leaf {n} at e x s) same =
      leaf at e (IsExact-congr n (omega arith) x same) (AllSound-congr s same)
  Holds-congr (inner {n} at lt x s a b agree) same =
      inner at lt (IsExact-congr n (omega arith) x same) (AllSound-congr s same) a b
        (λ k u v. sym (same k u v) ∙ agree k u v)

  -- A node keeps its meaning when the arena grows.
  pub Holds-Extends :
      {nodes nodes' : Arena A B} {i l r : ℕ} {f : Elements A}
      → Extends nodes nodes'
      → Holds nodes i f l r
      → Holds nodes' i f l r
  Holds-Extends x (leaf {i} {n} at e exact s) = leaf (Extends-get i n x at) e exact s
  Holds-Extends x (inner {i} {n} at lt exact s a b agree) =
      inner (Extends-get i n x at) lt exact s (Holds-Extends x a) (Holds-Extends x b) agree
