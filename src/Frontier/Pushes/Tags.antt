-- ===== src/Frontier/Pushes/Tags.antt =====
-- The tags of PushCountingModel inside and outside a subtree of canonical nodes.
use version_aware_lazy_segtr.Prelude.{
  ℕ, ◌+◌, ◌*◌, ◌≡◌, refl, ◌∙◌, List, set, get_elem?, get_elem?-set_ne,
}
use version_aware_lazy_segtr.Lazy.Below.{
  ChildOf, Below, here, Below-child, siblings_apart, parent_apart,
}

module _ {B : Type 0} where
  abbrev pub KeptBelow : List B → List B → ℕ → Type 0
  KeptBelow tags tags' c = (k : ℕ) → Below c k → get_elem? tags' k ≡ get_elem? tags k

  -- Only tags of a subtree have changed.
  pub record OnlyBelow (node : ℕ) (tags tags' : List B) : Type 0 where
    pub outside : (k : ℕ) → (Below node k → ⊥) → get_elem? tags' k ≡ get_elem? tags k

  pub OnlyBelow-refl : (node : ℕ) (tags : List B) → OnlyBelow node tags tags
  OnlyBelow-refl node tags = record { outside = λ k off. refl }

  pub OnlyBelow-trans :
      {node : ℕ} {a b c : List B} → OnlyBelow node a b → OnlyBelow node b c → OnlyBelow node a c
  OnlyBelow-trans x y = record { outside = λ k off. y.outside k off ∙ x.outside k off }

  pub OnlyBelow-child :
      {node c : ℕ} {a b : List B} → ChildOf node c → OnlyBelow c a b → OnlyBelow node a b
  OnlyBelow-child child x = record {
    outside = λ k off. x.outside k (λ below. off (Below-child child below));
  }

  -- What a change below one child leaves alone.
  pub right_apart :
      (node : ℕ) {a b : List B} → OnlyBelow (2 * node + 1) a b → KeptBelow a b (2 * node + 2)
  right_apart node x k b = x.outside k (λ a. siblings_apart node a b)

  pub left_apart :
      (node : ℕ) {a b : List B} → OnlyBelow (2 * node + 2) a b → KeptBelow a b (2 * node + 1)
  left_apart node x k a = x.outside k (λ b. siblings_apart node a b)

  pub parent_kept :
      (node c : ℕ) {a b : List B}
      → ChildOf node c
      → OnlyBelow c a b
      → get_elem? b node ≡ get_elem? a node
  parent_kept node c child x = x.outside node (parent_apart node c child)

  -- A write of one tag.
  pub set-OnlyBelow : (tags : List B) (c : ℕ) (t : B) → OnlyBelow c tags (set tags c t)
  set-OnlyBelow tags c t = record {
    outside = λ k off. get_elem?-set_ne tags c k t (λ e. off (here e));
  }

  pub set_apart :
      (tags : List B) (node c : ℕ) (t : B) → ChildOf node c → KeptBelow tags (set tags node t) c
  set_apart tags node c t child k below =
      get_elem?-set_ne tags node k t (λ e. parent_apart node c child (rw (← e) below))
