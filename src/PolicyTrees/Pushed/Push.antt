-- ===== src/PolicyTrees/Pushed/Push.antt =====
-- push of PushedLazyTree.
use version_aware_lazy_segtr.Prelude.{
  ℕ, ◌+◌, ◌-◌, ◌*◌, ◌≤◌, ◌<◌, ◌≡◌, ◌==◌, refl, sym, ap, ◌∙◌, true, false, inl, inr, Bool-cases,
  arith, some, set, get_elem?, get_elem?-set_self,
}
use version_aware_lazy_segtr.Prelude.Run
use version_aware_lazy_segtr.Prelude.Run.{Run, Ends, returns, raises, ◌>>◌}
use version_aware_lazy_segtr.Prelude.Vector.{assigned-ok}
use version_aware_lazy_segtr.Size.{midpoint}
use version_aware_lazy_segtr.Policy.Interface.{Policy, Laws}
use version_aware_lazy_segtr.PolicyTrees.Fold.{Elements, fold-acted, acted}
use version_aware_lazy_segtr.PolicyTrees.Holds.{Agree, AllSound}
use version_aware_lazy_segtr.PolicyTrees.Pushed.{PushedLazyTree, hand_down, push, store_tag}
use version_aware_lazy_segtr.PolicyTrees.Pushed.Holds.{
  Entry, Holds, leaf, inner, Settled, settled_leaf, settled_inner, Entry-congr, Holds-congr,
  Holds-kept,
}
use version_aware_lazy_segtr.PolicyTrees.Pushed.Frame.{
  Frame, Frame-refl, Frame-trans, Frame-child, Frame-aggregate, Frame-tag, aggregate_apart,
  tag_apart, parent_kept,
}
use version_aware_lazy_segtr.PolicyTrees.Pushed.Tag.{tagged, both-Handed}

module _ {A B : Type 0} {p : Policy A B} (laws : Laws p) where
  abbrev pub Settles :
      ℕ → Elements A → ℕ → ℕ → PushedLazyTree A B → Run (PushedLazyTree A B) (Unit {0}) → Type 0
  Settles node f l r tree run =
      Ends (λ w tree'. Frame node tree tree' × Settled laws tree' node f l r)
        (λ e tree'. laws.Throws e) run

  -- After an aggregate took the pending tag, and the tag was cleared.
  applied-Entry :
      (tree tree' : PushedLazyTree A B) {node l r : ℕ} (f : Elements A) {g : Elements A} {a : A}
      {t : B} (a' : A)
      → l ≤ r
      → Entry laws tree node a t g l r
      → Agree laws f (acted laws t g) l r
      → (a' ≡ laws.act t a (r - l + 1)) × laws.Fit a'
      → get_elem? tree'.aggregates node ≡ some a'
      → get_elem? tree'.tags node ≡ some p.action_identity
      → Entry laws tree' node a' p.action_identity f l r
  applied-Entry tree tree' {node} {l} {r} f {g} {a} {t} a' le x same (ea, fit) at at_t =
      Entry-congr laws le (λ k u v. sym (same k u v))
        (record {
          aggregate_there = at;
          tag_there = at_t;
          exact =
              ea
              ∙ ap (λ y. laws.act t y (r - l + 1)) x.exact
              ∙ sym (fold-acted laws t g l r le x.good);
          fit = fit;
          good = laws.identity_good;
          sound = λ k u v. laws.act_sound 1 x.good (x.sound k u v);
        })

  -- The end of a push, after both children took the tag.
  clear-Settles :
      (tree tree3 : PushedLazyTree A B) {node l r : ℕ} (f : Elements A) {g : Elements A} {a : A}
      {t : B}
      → Entry laws tree node a t g l r
      → l < r
      → Agree laws f (acted laws t g) l r
      → (a' : A) → (a' ≡ laws.act t a (r - l + 1)) × laws.Fit a'
      → Frame node tree tree3
      → get_elem? tree3.aggregates node ≡ some a'
      → get_elem? tree3.tags node ≡ some t
      → Holds laws tree3 (2 * node + 1) (acted laws t g) l (midpoint l r)
      → Holds laws tree3 (2 * node + 2) (acted laws t g) (midpoint l r + 1) r
      → Settles node f l r tree (store_tag node p.action_identity tree3)
  clear-Settles tree tree3 {node} {l} {r} f {g} {a} {t} x lt same a' new frame at at_t ha hb =
      let i = p.action_identity in
      let tree4 = tagged laws tree3 node i in
      rw (assigned-ok tree3.tags node i t at_t) (
        returns (
          Frame-trans frame (Frame-tag node i tree3),
          settled_inner
              (applied-Entry tree tree4 f a' (omega arith) x same new at
                (get_elem?-set_self tree3.tags node i t at_t))
              laws.identity_known lt
              (Holds-congr laws (λ k u v. sym (same k u (omega arith)))
                (Holds-kept laws (tag_apart node (2 * node + 1) i tree3 (inl refl)) ha))
              (Holds-congr laws (λ k u v. sym (same k (omega arith) v))
                (Holds-kept laws (tag_apart node (2 * node + 2) i tree3 (inr refl)) hb)),
        ))

  -- A tag that does nothing.
  dropped :
      (f g : Elements A) (t : B) (l r : ℕ)
      → p.is_identity t ≡ true
      → AllSound laws g l r
      → Agree laws f (acted laws t g) l r
      → Agree laws g f l r
  dropped f g t l r none_there sound same k u v =
      sym (same k u v ∙ laws.act_identity 1 none_there (sound k u v))

  -- A push of a pending tag into both children.
  inner-Settles :
      (tree : PushedLazyTree A B) {node l r : ℕ} (f : Elements A) {g : Elements A} {a : A} {t : B}
      → Entry laws tree node a t g l r
      → l < r
      → Agree laws f (acted laws t g) l r
      → Holds laws tree (2 * node + 1) g l (midpoint l r)
      → Holds laws tree (2 * node + 2) g (midpoint l r + 1) r
      → (a' : A) → (a' ≡ laws.act t a (r - l + 1)) × laws.Fit a'
      → Settles node f l r tree (
          Run.and_then
            ((do hand_down p node (2 * node + 1); hand_down p node (2 * node + 2))
              (record tree { aggregates = set tree.aggregates node a' }))
            λ w. store_tag node p.action_identity)
  inner-Settles tree {node} {l} {r} f {g} {a} {t} x lt same ha hb a' new =
      let tree1 = record tree { aggregates = set tree.aggregates node a' } in
      let left = 2 * node + 1 in
      let right = 2 * node + 2 in
      Run.bind _
        (both-Handed laws tree1 node l r g t x.tag_there x.good
          (Holds-kept laws (aggregate_apart node left a' tree (inl refl)) ha)
          (Holds-kept laws (aggregate_apart node right a' tree (inr refl)) hb))
        (λ w tree3 (tree2, frame2, frame3, h2, h3).
          let frame =
            Frame-trans (Frame-aggregate node a' tree)
              (Frame-trans (Frame-child (inl refl) frame2) (Frame-child (inr refl) frame3)) in
          let (same_a2, same_t2) = parent_kept node left (inl refl) frame2 in
          let (same_a3, same_t3) = parent_kept node right (inr refl) frame3 in
          clear-Settles tree tree3 f x lt same a' new frame
            (same_a3 ∙ same_a2 ∙ get_elem?-set_self tree.aggregates node a' a x.aggregate_there)
            (same_t3 ∙ same_t2 ∙ x.tag_there) h2 h3)

  -- A push leaves a node at which nothing is pending, and that stands for the same elements.
  pub push-Settles :
      {tree : PushedLazyTree A B} {node l r : ℕ} {f : Elements A}
      → Holds laws tree node f l r
      → Settles node f l r tree (push p node l r tree)
  unfolding push
  push-Settles {tree} {f} (leaf {node} {l} {r} {g} {a} {t} x e same) =
      elim (Bool-cases (p.is_identity t)) [
        | inl none_there ↦
            rw (x.tag_there, none_there)
              (returns (
                Frame-refl node tree,
                settled_leaf
                    (Entry-congr laws (omega arith) (dropped f g t l r none_there x.sound same) x)
                    none_there e,
              ))
        | inr pending ↦
            let one : (l == r) ≡ true = ground arith in
            rw (x.tag_there, pending, x.aggregate_there)
              (Run.bind_lift _ tree (laws.apply_gives (r - l + 1) (omega arith) x.good x.fit)
                (λ a' new.
                  let i = p.action_identity in
                  let t1 = record tree { aggregates = set tree.aggregates node a' } in
                  rw
                    (
                      assigned-ok tree.aggregates node a' a x.aggregate_there,
                      one,
                      assigned-ok tree.tags node i t x.tag_there,
                    )
                    (returns (
                      Frame-trans (Frame-aggregate node a' tree) (Frame-tag node i t1),
                      settled_leaf
                          (applied-Entry tree (tagged laws t1 node i) f a' (omega arith) x same new
                            (get_elem?-set_self tree.aggregates node a' a x.aggregate_there)
                            (get_elem?-set_self tree.tags node i t x.tag_there))
                          laws.identity_known e,
                    )))
                (λ e bad. bad))
      ]
  push-Settles {tree} {f} (inner {node} {l} {r} {g} {a} {t} x lt same ha hb) =
      elim (Bool-cases (p.is_identity t)) [
        | inl none_there ↦
            let agree = dropped f g t l r none_there x.sound same in
            rw (x.tag_there, none_there)
              (returns (
                Frame-refl node tree,
                settled_inner (Entry-congr laws (omega arith) agree x) none_there lt
                    (Holds-congr laws (λ k u v. agree k u (omega arith)) ha)
                    (Holds-congr laws (λ k u v. agree k (omega arith) v) hb),
              ))
        | inr pending ↦
            let more : (l == r) ≡ false = ground arith in
            rw (x.tag_there, pending, x.aggregate_there)
              (Run.bind_lift _ tree (laws.apply_gives (r - l + 1) (omega arith) x.good x.fit)
                (λ a' new.
                  rw (assigned-ok tree.aggregates node a' a x.aggregate_there, more)
                    (inner-Settles tree f x lt same ha hb a' new))
                (λ e bad. bad))
      ]
