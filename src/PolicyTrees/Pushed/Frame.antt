-- ===== src/PolicyTrees/Pushed/Frame.antt =====
-- What a change below a node of PushedLazyTree leaves alone.
use version_aware_lazy_segtr.Prelude.{ℕ, ◌+◌, ◌*◌, ◌≡◌, refl, ◌∙◌, set, get_elem?, get_elem?-set_ne}
use version_aware_lazy_segtr.Lazy.Below.{
  ChildOf, Below, here, Below-child, siblings_apart, parent_apart,
}
use version_aware_lazy_segtr.PolicyTrees.Pushed.{PushedLazyTree}

module _ {A B : Type 0} where
  -- The two entries at an index are as they were, and those of a subtree.
  abbrev pub KeptAt : PushedLazyTree A B → PushedLazyTree A B → ℕ → Type 0
  KeptAt tree tree' k =
      (get_elem? tree'.aggregates k ≡ get_elem? tree.aggregates k)
      × (get_elem? tree'.tags k ≡ get_elem? tree.tags k)

  abbrev pub KeptBelow : PushedLazyTree A B → PushedLazyTree A B → ℕ → Type 0
  KeptBelow tree tree' node = (k : ℕ) → Below node k → KeptAt tree tree' k

  -- The entries outside a subtree are as they were, and so is the size.
  pub record Frame (node : ℕ) (tree tree' : PushedLazyTree A B) : Type 0 where
    pub outside : (k : ℕ) → (Below node k → ⊥) → KeptAt tree tree' k
    pub size_kept : tree'.array_size ≡ tree.array_size

  pub Frame-refl : (node : ℕ) (tree : PushedLazyTree A B) → Frame node tree tree
  Frame-refl node tree = record { outside = λ k off. (refl, refl); size_kept = refl }

  pub Frame-trans :
      {node : ℕ} {a b c : PushedLazyTree A B} → Frame node a b → Frame node b c → Frame node a c
  Frame-trans x y = record {
    outside =
        λ k off. let (p, q) = x.outside k off in let (p', q') = y.outside k off in (p' ∙ p, q' ∙ q);
    size_kept = y.size_kept ∙ x.size_kept;
  }

  pub Frame-child :
      {node c : ℕ} {a b : PushedLazyTree A B} → ChildOf node c → Frame c a b → Frame node a b
  Frame-child child x = record {
    outside = λ k off. x.outside k (λ b. off (Below-child child b));
    size_kept = x.size_kept;
  }

  pub right_apart :
      (node : ℕ) {a b : PushedLazyTree A B}
      → Frame (2 * node + 1) a b
      → KeptBelow a b (2 * node + 2)
  right_apart node x k b = x.outside k (λ a. siblings_apart node a b)

  pub left_apart :
      (node : ℕ) {a b : PushedLazyTree A B}
      → Frame (2 * node + 2) a b
      → KeptBelow a b (2 * node + 1)
  left_apart node x k a = x.outside k (λ b. siblings_apart node a b)

  pub parent_kept :
      (node c : ℕ) {a b : PushedLazyTree A B} → ChildOf node c → Frame c a b → KeptAt a b node
  parent_kept node c child x = x.outside node (parent_apart node c child)

  -- Writes of a node's own entries.
  pub Frame-aggregate :
      (node : ℕ) (x : A) (tree : PushedLazyTree A B)
      → Frame node tree (record tree { aggregates = set tree.aggregates node x })
  Frame-aggregate node x tree = record {
    outside = λ k off. (get_elem?-set_ne tree.aggregates node k x (λ e. off (here e)), refl);
    size_kept = refl;
  }

  pub Frame-tag :
      (node : ℕ) (x : B) (tree : PushedLazyTree A B)
      → Frame node tree (record tree { tags = set tree.tags node x })
  Frame-tag node x tree = record {
    outside = λ k off. (refl, get_elem?-set_ne tree.tags node k x (λ e. off (here e)));
    size_kept = refl;
  }

  -- A write of a node's entries leaves the subtrees of its children alone.
  pub aggregate_apart :
      (node c : ℕ) (x : A) (tree : PushedLazyTree A B)
      → ChildOf node c
      → KeptBelow tree (record tree { aggregates = set tree.aggregates node x }) c
  aggregate_apart node c x tree child k below = (
    get_elem?-set_ne tree.aggregates node k x (λ e. parent_apart node c child (rw (← e) below)),
    refl,
  )

  pub tag_apart :
      (node c : ℕ) (x : B) (tree : PushedLazyTree A B)
      → ChildOf node c
      → KeptBelow tree (record tree { tags = set tree.tags node x }) c
  tag_apart node c x tree child k below =
      (refl, get_elem?-set_ne tree.tags node k x (λ e. parent_apart node c child (rw (← e) below)))
