-- ===== src/PolicyTrees/Pushed/Update.antt =====
-- The recursion of update of PushedLazyTree.
use version_aware_lazy_segtr.Prelude.{
  ℕ, zero, suc, ◌+◌, ◌-◌, ◌*◌, ◌≤◌, ◌<◌, ◌≡◌, ◌||◌, refl, sym, true, false, inl, inr, Bool-cases,
  arith, some, ◌⊎◌, ltb, covers, covers→le, get_elem?, get_elem?-set_self, misses→lt,
}
use version_aware_lazy_segtr.Prelude.Run
use version_aware_lazy_segtr.Prelude.Run.{Run, Ends, returns, raises, lift, Action, ◌>>=◌, ◌>>◌}
use version_aware_lazy_segtr.Prelude.Vector.{assigned-ok}
use version_aware_lazy_segtr.Size.{midpoint}
use version_aware_lazy_segtr.Policy.Interface.{Policy, Laws}
use version_aware_lazy_segtr.Lazy.Below.{here, Below-child}
use version_aware_lazy_segtr.PolicyTrees.Fold.{Elements, fold, fold-split, acted, applied}
use version_aware_lazy_segtr.PolicyTrees.Holds.{Agree, AllSound}
use version_aware_lazy_segtr.PolicyTrees.Pushed.{
  PushedLazyTree, push, update, aggregate_at, tag_at, store_aggregate, store_tag,
}
use version_aware_lazy_segtr.PolicyTrees.Pushed.Holds.{
  Entry, Holds, Settled, settled_leaf, settled_inner, Settled-Holds, Settled-congr, Entry-kept,
  Holds-kept,
}
use version_aware_lazy_segtr.PolicyTrees.Pushed.Frame.{
  KeptBelow, Frame, Frame-trans, Frame-child, Frame-aggregate, Frame-tag, aggregate_apart,
  parent_kept, right_apart, left_apart,
}
use version_aware_lazy_segtr.PolicyTrees.Pushed.Push.{Settles, push-Settles}
use version_aware_lazy_segtr.PolicyTrees.Pushed.Tag.{tag_of, composed-Holds}

module _ {A B : Type 0} {p : Policy A B} (laws : Laws p) where
  -- The aggregate of a settled node, which is exact.
  pub Settled-aggregate :
      {tree : PushedLazyTree A B} {node l r : ℕ} {f : Elements A}
      → Settled laws tree node f l r
      → (a : A) × (get_elem? tree.aggregates node ≡ some a)
        × (a ≡ fold laws.plus f l r)
        × laws.Fit a
  Settled-aggregate (settled_leaf {a} x none_there e) = (a, x.aggregate_there, x.exact, x.fit)
  Settled-aggregate (settled_inner {a} x none_there lt ha hb) =
      (a, x.aggregate_there, x.exact, x.fit)

  pub Settled-kept :
      {tree tree' : PushedLazyTree A B} {node l r : ℕ} {f : Elements A}
      → KeptBelow tree tree' node
      → Settled laws tree node f l r
      → Settled laws tree' node f l r
  Settled-kept kept (settled_leaf {node} x none_there e) =
      settled_leaf (Entry-kept laws (kept node (here refl)) x) none_there e
  Settled-kept kept (settled_inner {node} x none_there lt a b) =
      settled_inner (Entry-kept laws (kept node (here refl)) x) none_there lt
        (Holds-kept laws (λ k below. kept k (Below-child (inl refl) below)) a)
        (Holds-kept laws (λ k below. kept k (Below-child (inr refl) below)) b)

  module _ (ql qr : ℕ) (action : B) (good : laws.Good action) where
    abbrev changed : Elements A → Elements A
    changed f = applied laws ql qr action f

    -- A covered node takes the action and is pushed once more.
    covered-Settles :
        (tree tree1 : PushedLazyTree A B) {node l r : ℕ} {f : Elements A}
        → Frame node tree tree1
        → Holds laws tree1 node f l r
        → covers ql qr l r ≡ true
        → Settles laws node (changed f) l r tree (
            (do
              tag ← tag_at node
              composed ← lift (p.compose action tag)
              store_tag node composed
              push p node l r)
              tree1)
    covered-Settles tree tree1 {node} {l} {r} {f} frame h full =
        let (t, there, good_t) = tag_of laws h in
        let inside = covers→le ql qr l r full in
        rw there (
          Run.bind_lift _ tree1 (laws.compose_gives good good_t)
            (λ u (eu, good_u). rw (assigned-ok tree1.tags node u t there) (
              Run.mono
                (push-Settles laws (composed-Holds laws tree1 action t u h there good (eu, good_u)))
                (λ w tree2 (frame2, settled). (
                  Frame-trans frame (Frame-trans (Frame-tag node u tree1) frame2),
                  Settled-congr laws (all_covered f l r inside) settled,
                ))
                (λ e s bad. bad)))
            (λ e bad. bad))
      where
        all_covered :
            (f : Elements A) (l r : ℕ)
            → (ql ≤ l) × (r ≤ qr)
            → Agree laws (acted laws action f) (changed f) l r
        all_covered f l r inside k u v = let on : covers ql qr k k ≡ true = ground arith in rw on

    untouched :
        (f : Elements A) (l r : ℕ) → (ltb r ql || ltb qr l) ≡ true → Agree laws f (changed f) l r
    untouched f l r out k u v =
        let off : covers ql qr k k ≡ false = outside (misses→lt ql qr l r out) u v in rw off
      where
        outside : {k : ℕ} → (r < ql) ⊎ (qr < l) → l ≤ k → k ≤ r → covers ql qr k k ≡ false
        outside h u v = ground arith

    changed_sound : (f : Elements A) (l r : ℕ) → AllSound laws f l r → AllSound laws (changed f) l r
    changed_sound f l r sound k u v = elim (Bool-cases (covers ql qr k k)) [
      | inl on ↦ rw on (laws.act_sound 1 good (sound k u v))
      | inr off ↦ rw off (sound k u v)
    ]

    -- The end of a partial descent, after both children.
    joined-Settles :
        (tree tree3 : PushedLazyTree A B) {node l r : ℕ} {f : Elements A} {a : A} {t : B}
        → Frame node tree tree3
        → Entry laws tree3 node a t f l r
        → p.is_identity t ≡ true
        → l < r
        → Settled laws tree3 (2 * node + 1) (changed f) l (midpoint l r)
        → Settled laws tree3 (2 * node + 2) (changed f) (midpoint l r + 1) r
        → Settles laws node (changed f) l r tree (
            (do
              left ← aggregate_at (2 * node + 1)
              right ← aggregate_at (2 * node + 2)
              aggregate ← lift (p.combine left right)
              store_aggregate node aggregate)
              tree3)
    joined-Settles tree tree3 {node} {l} {r} {f} {a} {t} frame x none_there lt ha hb =
        let (c, at_c, ec, fit_c) = Settled-aggregate ha in
        let (d, at_d, ed, fit_d) = Settled-aggregate hb in
        let split =
          fold-split laws.plus laws.plus_assoc (changed f) l (midpoint l r) r (omega arith)
            (omega arith) in
        rw (at_c, at_d)
          (Run.bind_lift _ tree3 (laws.combine_gives fit_c fit_d)
            (λ b (eb, fit_b). rw (assigned-ok tree3.aggregates node b a x.aggregate_there) (
              returns (
                Frame-trans frame (Frame-aggregate node b tree3),
                settled_inner
                    (record {
                      aggregate_there =
                          get_elem?-set_self tree3.aggregates node b a x.aggregate_there;
                      tag_there = x.tag_there;
                      exact = rw (eb, ec, ed) (sym split);
                      fit = fit_b;
                      good = x.good;
                      sound = changed_sound f l r x.sound;
                    })
                    none_there lt
                    (Holds-kept laws (aggregate_apart node (2 * node + 1) b tree3 (inl refl))
                      (Settled-Holds laws ha))
                    (Holds-kept laws (aggregate_apart node (2 * node + 2) b tree3 (inr refl))
                      (Settled-Holds laws hb)),
              )))
            (λ e bad. bad))

    -- A partial descent, by what the visits of the children do.
    partial-Settles :
        (tree tree1 : PushedLazyTree A B) {node l r : ℕ} {f : Elements A}
        (go_left go_right : Action (PushedLazyTree A B) (Unit {0}))
        → Frame node tree tree1
        → Settled laws tree1 node f l r
        → (ltb r ql || ltb qr l) ≡ false
        → covers ql qr l r ≡ false
        → (l < r
            → Holds laws tree1 (2 * node + 1) f l (midpoint l r)
            → Settles laws (2 * node + 1) (changed f) l (midpoint l r) tree1 (go_left tree1))
        → ((tree2 : PushedLazyTree A B)
            → l < r
            → Holds laws tree2 (2 * node + 2) f (midpoint l r + 1) r
            → Settles laws (2 * node + 2) (changed f) (midpoint l r + 1) r tree2 (go_right tree2))
        → Settles laws node (changed f) l r tree (
            (do
              go_left
              go_right
              left ← aggregate_at (2 * node + 1)
              right ← aggregate_at (2 * node + 2)
              aggregate ← lift (p.combine left right)
              store_aggregate node aggregate)
              tree1)
    partial-Settles tree tree1 go_left go_right frame1 (settled_leaf x none_there e) met off
          visit_left visit_right =
        absurd (ground arith)
    partial-Settles tree tree1 {f} go_left go_right frame1
          (settled_inner {node} {l} {r} x none_there lt ha hb) met off visit_left visit_right =
        let left = 2 * node + 1 in
        let right = 2 * node + 2 in
        Run.bind _ (visit_left lt ha) λ w tree2 (frame2, sa).
          Run.bind _ (visit_right tree2 lt (Holds-kept laws (right_apart node frame2) hb))
            λ w' tree3 (frame3, sb).
              joined-Settles tree tree3
                (Frame-trans frame1
                  (Frame-trans (Frame-child (inl refl) frame2) (Frame-child (inr refl) frame3)))
                (Entry-kept laws {tree = tree2} (parent_kept node right (inr refl) frame3)
                  (Entry-kept laws (parent_kept node left (inl refl) frame2) x))
                none_there lt (Settled-kept (left_apart node frame3) sa) sb

    -- On a node that stands for elements, the update applies the action to those in the range, and
    -- leaves nothing pending at the node, or the policy throws.
    pub update-Settles :
        (fuel : ℕ) {tree : PushedLazyTree A B} {node l r : ℕ} {f : Elements A}
        → Holds laws tree node f l r
        → r - l < fuel
        → Settles laws node (changed f) l r tree (update p fuel node l r ql qr action tree)
    unfolding update
    update-Settles zero h enough = absurd (omega arith)
    update-Settles (suc fuel) {tree} {node} {l} {r} {f} h enough =
        Run.bind _ (push-Settles laws h) λ w tree1 (frame1, settled).
          elim (Bool-cases (ltb r ql || ltb qr l)) [
            | inl out ↦ rw out (returns (frame1, Settled-congr laws (untouched f l r out) settled))
            | inr met ↦ elim (Bool-cases (covers ql qr l r)) [
              | inl full ↦
                  rw (met, full)
                    (covered-Settles tree tree1 frame1 (Settled-Holds laws settled) full)
              | inr off ↦
                  rw (met, off)
                    (partial-Settles tree tree1
                      (update p fuel (2 * node + 1) l (midpoint l r) ql qr action)
                      (update p fuel (2 * node + 2) (midpoint l r + 1) r ql qr action) frame1
                      settled met off (λ lt ha. update-Settles fuel ha (omega arith))
                      (λ tree2 lt hb. update-Settles fuel hb (omega arith)))
            ]
          ]
