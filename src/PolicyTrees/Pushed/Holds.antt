-- ===== src/PolicyTrees/Pushed/Holds.antt =====
-- What a node of PushedLazyTree stands for: the elements of its segment, without the tags of its
-- ancestors. Its own tag is pending, on itself and on its children.
use version_aware_lazy_segtr.Prelude.{
  ℕ, ◌+◌, ◌*◌, ◌≤◌, ◌<◌, ◌≡◌, refl, sym, ◌∙◌, true, inl, inr, arith, some, get_elem?,
}
use version_aware_lazy_segtr.Size.{midpoint}
use version_aware_lazy_segtr.Policy.Interface.{Policy, Laws}
use version_aware_lazy_segtr.Lazy.Below.{here, Below-child}
use version_aware_lazy_segtr.PolicyTrees.Fold.{Elements, fold, fold-congr, acted}
use version_aware_lazy_segtr.PolicyTrees.Holds.{Agree, AllSound}
use version_aware_lazy_segtr.PolicyTrees.Pushed.{PushedLazyTree}
use version_aware_lazy_segtr.PolicyTrees.Pushed.Frame.{KeptAt, KeptBelow}

module _ {A B : Type 0} {p : Policy A B} (laws : Laws p) where
  -- The entries of a node whose children stand for g.
  pub record Entry (tree : PushedLazyTree A B) (node : ℕ) (a : A) (t : B) (g : Elements A) (l r : ℕ)
      : Type 0 where
    pub aggregate_there : get_elem? tree.aggregates node ≡ some a
    pub tag_there : get_elem? tree.tags node ≡ some t
    pub exact : a ≡ fold laws.plus g l r
    pub fit : laws.Fit a
    pub good : laws.Good t
    pub sound : AllSound laws g l r

  pub data Holds (tree : PushedLazyTree A B) : ℕ → Elements A → ℕ → ℕ → Type 0 where
    leaf :
        {node l r : ℕ} {f g : Elements A} {a : A} {t : B}
        → Entry tree node a t g l r
        → l ≡ r
        → Agree laws f (acted laws t g) l r
        → Holds tree node f l r
    inner :
        {node l r : ℕ} {f g : Elements A} {a : A} {t : B}
        → Entry tree node a t g l r
        → l < r
        → Agree laws f (acted laws t g) l r
        → Holds tree (2 * node + 1) g l (midpoint l r)
        → Holds tree (2 * node + 2) g (midpoint l r + 1) r
        → Holds tree node f l r

  -- A node at which nothing is pending.
  pub data Settled (tree : PushedLazyTree A B) : ℕ → Elements A → ℕ → ℕ → Type 0 where
    settled_leaf :
        {node l r : ℕ} {f : Elements A} {a : A} {t : B}
        → Entry tree node a t f l r
        → p.is_identity t ≡ true
        → l ≡ r
        → Settled tree node f l r
    settled_inner :
        {node l r : ℕ} {f : Elements A} {a : A} {t : B}
        → Entry tree node a t f l r
        → p.is_identity t ≡ true
        → l < r
        → Holds tree (2 * node + 1) f l (midpoint l r)
        → Holds tree (2 * node + 2) f (midpoint l r + 1) r
        → Settled tree node f l r

  pub ordered :
      {tree : PushedLazyTree A B} {node l r : ℕ} {f : Elements A} → Holds tree node f l r → l ≤ r
  ordered (leaf x e same) = omega arith
  ordered (inner x lt same a b) = omega arith

  pub nothing_pending :
      (f : Elements A) (t : B) (l r : ℕ)
      → p.is_identity t ≡ true
      → AllSound laws f l r
      → Agree laws f (acted laws t f) l r
  nothing_pending f t l r none_there sound k u v =
      sym (laws.act_identity 1 none_there (sound k u v))

  pub Settled-Holds :
      {tree : PushedLazyTree A B} {node l r : ℕ} {f : Elements A}
      → Settled tree node f l r
      → Holds tree node f l r
  Settled-Holds {l} {r} {f} (settled_leaf {t} x none_there e) =
      leaf x e (nothing_pending f t l r none_there x.sound)
  Settled-Holds {l} {r} {f} (settled_inner {t} x none_there lt a b) =
      inner x lt (nothing_pending f t l r none_there x.sound) a b

  pub Entry-congr :
      {tree : PushedLazyTree A B} {node l r : ℕ} {f g : Elements A} {a : A} {t : B}
      → l ≤ r
      → Agree laws f g l r
      → Entry tree node a t f l r
      → Entry tree node a t g l r
  Entry-congr {l} {r} {f} {g} le same x = record {
    aggregate_there = x.aggregate_there;
    tag_there = x.tag_there;
    exact = x.exact ∙ fold-congr laws.plus f g l r le same;
    fit = x.fit;
    good = x.good;
    sound = λ k u v. rw (← same k u v) (x.sound k u v);
  }

  pub Entry-kept :
      {tree tree' : PushedLazyTree A B} {node l r : ℕ} {g : Elements A} {a : A} {t : B}
      → KeptAt tree tree' node
      → Entry tree node a t g l r
      → Entry tree' node a t g l r
  Entry-kept (u, v) x = record {
    aggregate_there = u ∙ x.aggregate_there;
    tag_there = v ∙ x.tag_there;
    exact = x.exact;
    fit = x.fit;
    good = x.good;
    sound = x.sound;
  }

  -- Only the elements of the segment matter.
  pub Holds-congr :
      {tree : PushedLazyTree A B} {node l r : ℕ} {f g : Elements A}
      → Agree laws f g l r
      → Holds tree node f l r
      → Holds tree node g l r
  Holds-congr same (leaf x e agree) = leaf x e (λ k u v. sym (same k u v) ∙ agree k u v)
  Holds-congr same (inner x lt agree a b) = inner x lt (λ k u v. sym (same k u v) ∙ agree k u v) a b

  pub Settled-congr :
      {tree : PushedLazyTree A B} {node l r : ℕ} {f g : Elements A}
      → Agree laws f g l r
      → Settled tree node f l r
      → Settled tree node g l r
  Settled-congr same (settled_leaf x none_there e) =
      settled_leaf (Entry-congr (omega arith) same x) none_there e
  Settled-congr {l} {r} same (settled_inner x none_there lt a b) =
      settled_inner (Entry-congr (omega arith) same x) none_there lt
        (Holds-congr (λ k u v. same k u (omega arith)) a)
        (Holds-congr (λ k u v. same k (omega arith) v) b)

  -- A node keeps its meaning while its subtree is left alone.
  pub Holds-kept :
      {tree tree' : PushedLazyTree A B} {node l r : ℕ} {f : Elements A}
      → KeptBelow tree tree' node
      → Holds tree node f l r
      → Holds tree' node f l r
  Holds-kept kept (leaf {node} x e same) = leaf (Entry-kept (kept node (here refl)) x) e same
  Holds-kept kept (inner {node} x lt same a b) =
      inner (Entry-kept (kept node (here refl)) x) lt same
        (Holds-kept (λ k below. kept k (Below-child (inl refl) below)) a)
        (Holds-kept (λ k below. kept k (Below-child (inr refl) below)) b)
