-- ===== src/PolicyTrees/Build.antt =====
-- The recursion of build of PathCopyingActionTree.
use version_aware_lazy_segtr.Prelude.{
  ℕ, zero, suc, ◌+◌, ◌-◌, ◌≤◌, ◌<◌, ◌≡◌, sym, inl, inr, arith, List, length, get_or,
  get_elem?-get_or, ◌==◌, Bool-cases, eq_of_==, ne_of_==,
}
use version_aware_lazy_segtr.Prelude.Run
use version_aware_lazy_segtr.Prelude.Run.{Action, Run, Ends, pure, lift, returns, raises, ◌>>=◌}
use version_aware_lazy_segtr.Size.{midpoint}
use version_aware_lazy_segtr.Arena.{no_node, Extends-trans, append-Ends}
use version_aware_lazy_segtr.Policy.Interface.{Policy, Laws}
use version_aware_lazy_segtr.PolicyTrees.PathCopying.{node, Arena, build}
use version_aware_lazy_segtr.PolicyTrees.Fold.{Elements, fold, fold-split, fold-single}
use version_aware_lazy_segtr.PolicyTrees.Holds.{leaf, inner, AllSound, root_node, Holds-Extends}
use version_aware_lazy_segtr.PolicyTrees.Steps.{Makes}

module _ {A B : Type 0} {p : Policy A B} (laws : Laws p) where
  -- The elements of a vector, and the identity past its end.
  abbrev pub of_list : List A → Elements A
  of_list values k = get_or values k p.aggregate_identity

  -- A vector of aggregates with which a tree may start.
  abbrev pub AllFit : List A → Type 0
  AllFit values =
      (k : ℕ) → k < length values → laws.Fit (of_list values k) × laws.Sound (of_list values k)

  module _ (values : List A) (all : AllFit values) where
    pub build-Makes :
        (fuel : ℕ) (nodes : Arena A B) (l r : ℕ)
        → l ≤ r
        → r < length values
        → r - l < fuel
        → Makes laws nodes (of_list values) l r (build p fuel values l r nodes)
    unfolding build
    build-Makes zero nodes l r le lt enough = absurd (omega arith)
    build-Makes (suc fuel) nodes l r le lt enough =
        let sound : AllSound laws (of_list values) l r = λ k u v. (all k (omega arith)).1 in
        let f = of_list values in
        let m = midpoint l r in
        elim (Bool-cases (l == r)) [
          | inl same ↦
              let e : l ≡ r = eq_of_== l r same in
              let single : fold laws.plus f l r ≡ f l = rw (← e) (fold-single laws.plus f l) in
              let n = node no_node no_node (f l) p.action_identity in
              rw (same, get_elem?-get_or values l p.aggregate_identity (omega arith))
                (Run.mono (append-Ends n nodes)
                  (λ j nodes' (ext, new). (
                    ext,
                    leaf new e (sym single, (all l (omega arith)).0, laws.identity_good) sound,
                  ))
                  (λ e s x. x))
          | inr more ↦
              let below : l < r = ground (arith, ne_of_== l r more) in
              rw more (
                Run.bind _ (build-Makes fuel nodes l m (omega arith) (omega arith) (omega arith))
                  λ i nodes1 (ext1, h1).
                    Run.bind _
                      (Run.mono (build-Makes fuel nodes1 (m + 1) r (omega arith) lt (omega arith))
                        (λ j s x. x) (λ e s (bad, ext). (bad, Extends-trans ext1 ext)))
                      λ j nodes2 (ext2, h2).
                        let ha = Holds-Extends laws ext2 h1 in
                        let ext12 = Extends-trans ext1 ext2 in
                        let (at_a, (ea, fit_a, _), _) = root_node laws ha in
                        let (at_b, (eb, fit_b, _), _) = root_node laws h2 in
                        let split =
                          fold-split laws.plus laws.plus_assoc f l m r (omega arith)
                            (omega arith) in
                        rw (at_a, at_b)
                          (Run.bind_lift _ nodes2 (laws.combine_gives fit_a fit_b)
                            (λ c (ec, fit).
                              let exact : c ≡ fold laws.plus f l r = rw (ec, ea, eb) (sym split) in
                              Run.mono (append-Ends (node i j c p.action_identity) nodes2)
                                (λ k nodes3 (ext3, new). (
                                  Extends-trans ext12 ext3,
                                  inner new below (exact, fit, laws.identity_good) sound
                                      (Holds-Extends laws ext3 ha) (Holds-Extends laws ext3 h2)
                                      (λ o u v.
                                        sym
                                          (laws.act_identity 1 laws.identity_known (sound o u v))),
                                ))
                                (λ e s x. x))
                            (λ e bad. (bad, ext12))))
        ]
