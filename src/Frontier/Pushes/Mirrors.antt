-- ===== src/Frontier/Pushes/Mirrors.antt =====
-- A version of PathCopyingActionTree and the vector of PushCountingModel with the same tags, node by
-- node.
use version_aware_lazy_segtr.Prelude.{
  ℕ, ◌+◌, ◌*◌, ◌<◌, ◌≡◌, refl, ◌∙◌, inl, inr, some, List, set, get_elem?, get_elem?-set_self,
}
use version_aware_lazy_segtr.Size.{midpoint}
use version_aware_lazy_segtr.Arena.{Extends, Extends-get}
use version_aware_lazy_segtr.Lazy.Below.{here, Below-child}
use version_aware_lazy_segtr.Frontier.Pushes.Tags.{KeptBelow, set_apart}
use version_aware_lazy_segtr.PolicyTrees.PathCopying.{Node, Arena}

module _ {A B : Type 0} where
  -- The record i and the canonical node c, and what is below them.
  pub data Mirrors (nodes : Arena A B) (tags : List B) : (i c l r : ℕ) → Type 0 where
    leaf :
        {i c l r : ℕ} {n : Node A B}
        → get_elem? nodes i ≡ some n
        → get_elem? tags c ≡ some n.tag
        → l ≡ r
        → Mirrors nodes tags i c l r
    inner :
        {i c l r : ℕ} {n : Node A B}
        → get_elem? nodes i ≡ some n
        → get_elem? tags c ≡ some n.tag
        → l < r
        → Mirrors nodes tags n.left_child (2 * c + 1) l (midpoint l r)
        → Mirrors nodes tags n.right_child (2 * c + 2) (midpoint l r + 1) r
        → Mirrors nodes tags i c l r

  abbrev pub top :
      {nodes : Arena A B} {tags : List B} {i c l r : ℕ} → Mirrors nodes tags i c l r → Node A B
  top (leaf {n} at tag e) = n
  top (inner {n} at tag lt a b) = n

  pub top_there :
      {nodes : Arena A B} {tags : List B} {i c l r : ℕ} (h : Mirrors nodes tags i c l r)
      → (get_elem? nodes i ≡ some (top h)) × (get_elem? tags c ≡ some (top h).tag)
  top_there (leaf at tag e) = (at, tag)
  top_there (inner at tag lt a b) = (at, tag)

  -- A version stays mirrored when the arena grows and its tags are left alone.
  pub Mirrors-kept :
      {nodes nodes' : Arena A B} {tags tags' : List B} {i c l r : ℕ}
      → Extends nodes nodes'
      → KeptBelow tags tags' c
      → Mirrors nodes tags i c l r
      → Mirrors nodes' tags' i c l r
  Mirrors-kept x kept (leaf {i} {c} {n} at tag e) =
      leaf (Extends-get i n x at) (kept c (here refl) ∙ tag) e
  Mirrors-kept x kept (inner {i} {c} {n} at tag lt a b) =
      inner (Extends-get i n x at) (kept c (here refl) ∙ tag) lt
        (Mirrors-kept x (λ k below. kept k (Below-child (inl refl) below)) a)
        (Mirrors-kept x (λ k below. kept k (Below-child (inr refl) below)) b)

  -- A copy of a record with another tag, and the tag written in the model.
  pub copy-Mirrors :
      {nodes nodes' : Arena A B} {tags : List B} {i j c l r : ℕ} (h : Mirrors nodes tags i c l r)
      (n : Node A B)
      → Extends nodes nodes'
      → get_elem? nodes' j ≡ some n
      → n.left_child ≡ (top h).left_child
      → n.right_child ≡ (top h).right_child
      → Mirrors nodes' (set tags c n.tag) j c l r
  copy-Mirrors {tags} {c} (leaf {n = old} at tag e) n x new same_left same_right =
      leaf new (get_elem?-set_self tags c n.tag old.tag tag) e
  copy-Mirrors {tags} {c} (inner {n = old} at tag lt a b) n x new same_left same_right =
      inner new (get_elem?-set_self tags c n.tag old.tag tag) lt
        (rw same_left (Mirrors-kept x (set_apart tags c (2 * c + 1) n.tag (inl refl)) a))
        (rw same_right (Mirrors-kept x (set_apart tags c (2 * c + 2) n.tag (inr refl)) b))
