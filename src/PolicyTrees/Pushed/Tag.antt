-- ===== src/PolicyTrees/Pushed/Tag.antt =====
-- A tag that is handed down in PushedLazyTree, and composed on the children.
use version_aware_lazy_segtr.Prelude.{
  ℕ, ◌+◌, ◌*◌, ◌≡◌, refl, sym, ap, ◌∙◌, inl, inr, Option, some, set, get_elem?, get_elem?-set_self,
}
use version_aware_lazy_segtr.Prelude.Run
use version_aware_lazy_segtr.Prelude.Run.{Run, Ends, returns, raises, ◌>>◌}
use version_aware_lazy_segtr.Prelude.Vector.{assigned-ok}
use version_aware_lazy_segtr.Size.{midpoint}
use version_aware_lazy_segtr.Policy.Interface.{Policy, Laws}
use version_aware_lazy_segtr.PolicyTrees.Fold.{Elements, acted}
use version_aware_lazy_segtr.PolicyTrees.Holds.{Agree}
use version_aware_lazy_segtr.PolicyTrees.Pushed.{PushedLazyTree, hand_down}
use version_aware_lazy_segtr.PolicyTrees.Pushed.Holds.{Entry, Holds, leaf, inner, Holds-kept}
use version_aware_lazy_segtr.PolicyTrees.Pushed.Frame.{
  Frame, Frame-tag, tag_apart, parent_kept, right_apart, left_apart,
}

one_tag : {B : Type 0} {o : Option B} {x y : B} → o ≡ some x → o ≡ some y → x ≡ y
one_tag a b = cc

module _ {A B : Type 0} {p : Policy A B} (laws : Laws p) where
  abbrev pub tagged : PushedLazyTree A B → ℕ → B → PushedLazyTree A B
  tagged tree node t = record tree { tags = set tree.tags node t }

  tagged-Entry :
      (tree : PushedLazyTree A B) {node l r : ℕ} {g : Elements A} {a : A} {t : B} (u : B)
      → Entry laws tree node a t g l r
      → laws.Good u
      → Entry laws (tagged tree node u) node a u g l r
  tagged-Entry tree {node} {t} u x good = record {
    aggregate_there = x.aggregate_there;
    tag_there = get_elem?-set_self tree.tags node u t x.tag_there;
    exact = x.exact;
    fit = x.fit;
    good = good;
    sound = x.sound;
  }

  pub tag_of :
      {tree : PushedLazyTree A B} {node l r : ℕ} {f : Elements A}
      → Holds laws tree node f l r
      → (t : B) × (get_elem? tree.tags node ≡ some t) × laws.Good t
  tag_of (leaf {t} x e same) = (t, x.tag_there, x.good)
  tag_of (inner {t} x lt same a b) = (t, x.tag_there, x.good)

  -- An action outside a pending tag.
  outside :
      (f g : Elements A) (action t t' u : B) (l r : ℕ)
      → Agree laws f (acted laws t g) l r
      → t ≡ t'
      → u ≡ laws.comp action t'
      → laws.Good action
      → laws.Good t
      → Agree laws (acted laws action f) (acted laws u g) l r
  outside f g action t t' u l r same e eu good good_t k x y =
      ap (λ z. laws.act action z 1) (same k x y)
      ∙ sym (laws.act_comp (g k) 1 good good_t)
      ∙ ap (λ z. laws.act z (g k) 1) (ap (laws.comp action) e ∙ sym eu)

  -- A subtree on whose root an action is composed.
  pub composed-Holds :
      (tree : PushedLazyTree A B) {node l r : ℕ} {f : Elements A} (action t u : B)
      → Holds laws tree node f l r
      → get_elem? tree.tags node ≡ some t
      → laws.Good action
      → (u ≡ laws.comp action t) × laws.Good u
      → Holds laws (tagged tree node u) node (acted laws action f) l r
  composed-Holds tree action t u (leaf {l} {r} {f} {g} {t = t0} x e same) at good (eu, good_u) =
      let one : t0 ≡ t = one_tag x.tag_there at in
      leaf (tagged-Entry tree u x good_u) e (outside f g action t0 t u l r same one eu good x.good)
  composed-Holds tree action t u (inner {node} {l} {r} {f} {g} {t = t0} x lt same a b) at good
        (eu, good_u) =
      let one : t0 ≡ t = one_tag x.tag_there at in
      inner (tagged-Entry tree u x good_u) lt
        (outside f g action t0 t u l r same one eu good x.good)
        (Holds-kept laws (tag_apart node (2 * node + 1) u tree (inl refl)) a)
        (Holds-kept laws (tag_apart node (2 * node + 2) u tree (inr refl)) b)

  -- The parent's tag is composed on a child.
  pub hand_down-Ends :
      (tree : PushedLazyTree A B) (node c : ℕ) {l r : ℕ} {f : Elements A} (t : B)
      → get_elem? tree.tags node ≡ some t
      → laws.Good t
      → Holds laws tree c f l r
      → Ends
          (λ w tree'. (u : B) × (tree' ≡ tagged tree c u) × Holds laws tree' c (acted laws t f) l r)
          (λ e tree'. laws.Throws e)
          (hand_down p node c tree)
  unfolding hand_down
  hand_down-Ends tree node c t at good h =
      let (tc, at_c, good_c) = tag_of h in
      rw (at, at_c)
        (Run.bind_lift _ tree (laws.compose_gives good good_c)
          (λ u (eu, good_u).
            rw (assigned-ok tree.tags c u tc at_c)
              (returns (u, refl, composed-Holds tree t tc u h at_c good (eu, good_u))))
          (λ e bad. bad))

  abbrev Handed : PushedLazyTree A B → ℕ → B → Elements A → ℕ → ℕ → PushedLazyTree A B → Type 0
  Handed tree1 node t g l r tree3 =
      (tree2 : PushedLazyTree A B) × Frame (2 * node + 1) tree1 tree2
      × Frame (2 * node + 2) tree2 tree3
      × Holds laws tree3 (2 * node + 1) (acted laws t g) l (midpoint l r)
      × Holds laws tree3 (2 * node + 2) (acted laws t g) (midpoint l r + 1) r

  -- Both children take the tag.
  pub both-Handed :
      (tree1 : PushedLazyTree A B) (node l r : ℕ) (g : Elements A) (t : B)
      → get_elem? tree1.tags node ≡ some t
      → laws.Good t
      → Holds laws tree1 (2 * node + 1) g l (midpoint l r)
      → Holds laws tree1 (2 * node + 2) g (midpoint l r + 1) r
      → Ends
          (λ w tree3. Handed tree1 node t g l r tree3)
          (λ e tree3. laws.Throws e)
          ((do hand_down p node (2 * node + 1); hand_down p node (2 * node + 2)) tree1)
  both-Handed tree1 node l r g t there good ha hb =
      let left = 2 * node + 1 in
      let right = 2 * node + 2 in
      Run.bind _ (hand_down-Ends tree1 node left t there good ha) (λ w tree2 (u, e2, h2).
        let frame2 : Frame left tree1 tree2 = rw e2 (Frame-tag left u tree1) in
        let there2 : get_elem? tree2.tags node ≡ some t =
          (parent_kept node left (inl refl) frame2).1 ∙ there in
        Run.mono
          (hand_down-Ends tree2 node right t there2 good
            (Holds-kept laws (right_apart node frame2) hb))
          (λ w' tree3 (u', e3, h3).
            let frame3 : Frame right tree2 tree3 = rw e3 (Frame-tag right u' tree2) in
            (tree2, frame2, frame3, Holds-kept laws (left_apart node frame3) h2, h3))
          (λ e s bad. bad))
