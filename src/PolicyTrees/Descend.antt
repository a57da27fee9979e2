-- ===== src/PolicyTrees/Descend.antt =====
-- A partial descent of PathCopyingActionTree, with and without pushes.
use version_aware_lazy_segtr.Prelude.{
  ℕ, ◌+◌, ◌-◌, ◌<◌, ◌≡◌, refl, sym, ap, ◌∙◌, ◌⊎◌, inl, inr, arith, Bool, true, false, ◌&&◌, not,
  leb, Bool-cases, leb→le, leb→lt,
}
use version_aware_lazy_segtr.Prelude.Run
use version_aware_lazy_segtr.Prelude.Run.{Action, Run, Ends, pure, lift, returns, raises, ◌>>=◌}
use version_aware_lazy_segtr.Size.{midpoint}
use version_aware_lazy_segtr.Arena.{Extends, Extends-refl, Extends-trans}
use version_aware_lazy_segtr.Policy.Interface.{Policy, Laws, Commutes}
use version_aware_lazy_segtr.PolicyTrees.PathCopying.{Node, Arena, descend, Descent}
use version_aware_lazy_segtr.PolicyTrees.Fold.{Elements, acted}
use version_aware_lazy_segtr.PolicyTrees.Holds.{
  Holds, Agree, AllSound, root_node, Holds-Extends, Holds-congr,
}
use version_aware_lazy_segtr.PolicyTrees.Steps.{Stopped, push_into-Makes}

module _ {A B : Type 0} {p : Policy A B} (laws : Laws p) where
  -- What the static_assert admits: a tree that pushes, or a policy whose actions commute.
  abbrev pub IsAdmitted : Bool → Type 0
  IsAdmitted push = (push ≡ true) ⊎ Commutes laws

  -- The children with which a partial descent goes on, for the elements without its tag. An action
  -- on these elements is the action on the elements with the tag.
  pub record IsDescent (nodes : Arena A B) (f : Elements A) (l r : ℕ) (action : B) (d : Descent B)
      (nodes' : Arena A B) : Type 0 where
    pub elements : Elements A
    pub grown : Extends nodes nodes'
    pub on_left : Holds laws nodes' d.left_child elements l (midpoint l r)
    pub on_right : Holds laws nodes' d.right_child elements (midpoint l r + 1) r
    pub tag_good : laws.Good d.retained
    pub tagged : Agree laws f (acted laws d.retained elements) l r
    pub swaps :
        Agree laws (acted laws action f) (acted laws d.retained (acted laws action elements)) l r

  -- The elements of both children.
  both_sound :
      {nodes : Arena A B} {i j l r : ℕ} {g : Elements A}
      → Holds laws nodes i g l (midpoint l r)
      → Holds laws nodes j g (midpoint l r + 1) r
      → AllSound laws g l r
  both_sound {l} {r} ha hb k u v = elim (Bool-cases (leb k (midpoint l r))) [
    | inl low ↦ (root_node laws ha).2 k u (leb→le k (midpoint l r) low)
    | inr high ↦ let past = leb→lt k (midpoint l r) high in (root_node laws hb).2 k (omega arith) v
  ]

  -- A tag that stays either commutes with the action or is the identity.
  swaps_kept :
      (push : Bool) {nodes : Arena A B} {l r : ℕ} {f g : Elements A} (n : Node A B) (action : B)
      → IsAdmitted push
      → l < r
      → laws.Good action
      → laws.Good n.tag
      → Holds laws nodes n.left_child g l (midpoint l r)
      → Holds laws nodes n.right_child g (midpoint l r + 1) r
      → Agree laws f (acted laws n.tag g) l r
      → (push && not (p.is_identity n.tag)) ≡ false
      → Agree laws (acted laws action f) (acted laws n.tag (acted laws action g)) l r
  swaps_kept push {g} n action (inr commutes) lt good good_tag ha hb agree keeps k u v =
      ap (λ x. laws.act action x 1) (agree k u v) ∙ commutes action n.tag (g k) good good_tag
  swaps_kept push {g} n action (inl pushes) lt good good_tag ha hb agree keeps k u v =
      let idle : p.is_identity n.tag ≡ true = ground arith in
      let sound = both_sound ha hb k u v in
      ap (λ x. laws.act action x 1) (agree k u v ∙ laws.act_identity 1 idle sound)
      ∙ sym (laws.act_identity 1 idle (laws.act_sound 1 good sound))

  pub descend-IsDescent :
      (push : Bool) {nodes : Arena A B} {l r : ℕ} {f g : Elements A} (n : Node A B) (action : B)
      → IsAdmitted push
      → l < r
      → laws.Good action
      → laws.Good n.tag
      → AllSound laws f l r
      → Holds laws nodes n.left_child g l (midpoint l r)
      → Holds laws nodes n.right_child g (midpoint l r + 1) r
      → Agree laws f (acted laws n.tag g) l r
      → Ends
          (IsDescent nodes f l r action)
          (Stopped laws nodes)
          (descend p push n l (midpoint l r) r nodes)
  unfolding descend
  descend-IsDescent push {nodes} {l} {r} {f} {g} n action admitted lt good good_tag sound ha hb
        agree =
      elim (Bool-cases (push && not (p.is_identity n.tag))) [
        | inl pushes ↦
            let m = midpoint l r in
            let len_left : m - l + 1 ≡ m - l + 1 = refl in
            let len_right : r - (m + 1) + 1 ≡ r - m = omega arith in
            rw pushes (
              Run.bind _ (push_into-Makes laws n.tag ha good_tag) (λ i nodes1 (ext1, h1).
                Run.bind _
                  (Run.mono
                    (rw len_right at
                      (push_into-Makes laws n.tag (Holds-Extends laws ext1 hb) good_tag))
                    (λ j s x. x) (λ e s (bad, ext). (bad, Extends-trans ext1 ext)))
                  (λ j nodes2 (ext2, h2). returns (record {
                    elements = f;
                    grown = Extends-trans ext1 ext2;
                    on_left =
                        Holds-congr laws (Holds-Extends laws ext2 h1)
                          (λ k u v. sym (agree k u (omega arith)));
                    on_right = Holds-congr laws h2 (λ k u v. sym (agree k (omega arith) v));
                    tag_good = laws.identity_good;
                    tagged = λ k u v. sym (laws.act_identity 1 laws.identity_known (sound k u v));
                    swaps = λ k u v. sym (
                        laws.act_identity 1 laws.identity_known
                          (laws.act_sound 1 good (sound k u v)));
                  }))))
        | inr keeps ↦ rw keeps (
            returns (record {
              elements = g;
              grown = Extends-refl nodes;
              on_left = ha;
              on_right = hb;
              tag_good = good_tag;
              tagged = agree;
              swaps = swaps_kept push n action admitted lt good good_tag ha hb agree keeps;
            }))
      ]
