-- ===== src/PolicyTrees/PointMaterialized/Update.antt =====
-- The recursions of build and update of PointMaterializedPersistentTree.
use version_aware_lazy_segtr.Prelude.{
  ℕ, zero, suc, ◌+◌, ◌-◌, ◌≤◌, ◌<◌, ◌≡◌, refl, sym, ap, ◌∙◌, ◌⊎◌, inl, inr, arith, Bool, true,
  false, covers, leb, ltb, ◌==◌, if◌then◌else◌, Bool-cases, leb→le, leb→lt, ltb→lt, ltb→le,
  eq_of_==, ne_of_==, List, length, get_elem?-get_or,
}
use version_aware_lazy_segtr.Prelude.Run
use version_aware_lazy_segtr.Prelude.Run.{Action, Run, Ends, pure, lift, returns, raises, ◌>>=◌}
use version_aware_lazy_segtr.Size.{midpoint}
use version_aware_lazy_segtr.Arena.{no_node, Extends-refl, append, append-Ends}
use version_aware_lazy_segtr.Policy.Interface.{Policy, Laws}
use version_aware_lazy_segtr.PolicyTrees.PointMaterialized.{node, Arena, build, update}
use version_aware_lazy_segtr.PolicyTrees.PointMaterialized.Holds.{
  Holds, leaf, inner, Agree, Makes, Holds-congr, Holds-Extends, both_step,
}
use version_aware_lazy_segtr.PolicyTrees.Fold.{Elements, fold, fold-single, applied}
use version_aware_lazy_segtr.PolicyTrees.Build.{of_list, AllFit}

module _ {A B : Type 0} {p : Policy A B} (laws : Laws p) where
  -- A new leaf.
  leaf-Makes :
      {nodes : Arena A} {l r : ℕ} (f : Elements A) (a : A)
      → l ≡ r
      → a ≡ f l
      → laws.Fit a
      → Makes laws nodes f l r (append (node no_node no_node a) nodes)
  leaf-Makes {nodes} {l} {r} f a e value fit =
      let single : fold laws.plus f l r ≡ f l = rw (← e) (fold-single laws.plus f l) in
      Run.mono (append-Ends (node no_node no_node a) nodes)
        (λ j nodes' (ext, new). (ext, leaf new e (value ∙ sym single, fit))) (λ e s x. x)

  pub build-Makes :
      (values : List A)
      → AllFit laws values
      → (fuel : ℕ) (nodes : Arena A) (l r : ℕ) → l ≤ r
      → r < length values
      → r - l < fuel
      → Makes laws nodes (of_list laws values) l r (build p fuel values l r nodes)
  unfolding build
  build-Makes values all zero nodes l r le lt enough = absurd (omega arith)
  build-Makes values all (suc fuel) nodes l r le lt enough = elim (Bool-cases (l == r)) [
    | inl same ↦
        rw (same, get_elem?-get_or values l p.aggregate_identity (omega arith))
          (leaf-Makes (of_list laws values) (of_list laws values l) (eq_of_== l r same) refl
            (all l (omega arith)).0)
    | inr more ↦
        let below : l < r = ground (arith, ne_of_== l r more) in
        rw more (
          both_step laws (of_list laws values) (build p fuel values l (midpoint l r))
            (build p fuel values (midpoint l r + 1) r) below
            (build-Makes values all fuel nodes l (midpoint l r) (omega arith) (omega arith)
              (omega arith))
            (λ nodes' ext.
              build-Makes values all fuel nodes' (midpoint l r + 1) r (omega arith) (omega arith)
                (omega arith)))
  ]

  -- One child: updated, or shared because the range misses it.
  child_step :
      {nodes : Arena A} {f : Elements A} {l r : ℕ} (ql qr : ℕ) (action : B) (visit : Bool) (c : ℕ)
      (go : Action (Arena A) ℕ)
      → Holds laws nodes c f l r
      → (visit ≡ true → Makes laws nodes (applied laws ql qr action f) l r (go nodes))
      → (visit ≡ false → (r < ql) ⊎ (qr < l))
      → Makes laws nodes (applied laws ql qr action f) l r ((if visit then go else pure c) nodes)
  child_step ql qr action true c go h step out = step refl
  child_step {nodes} {f} {l} {r} ql qr action false c go h step out =
      returns (Extends-refl nodes, Holds-congr laws h (untouched (out refl)))
    where
      untouched : (r < ql) ⊎ (qr < l) → Agree laws f (applied laws ql qr action f) l r
      untouched (inl off) k u v = let no : covers ql qr k k ≡ false = ground arith in rw no refl
      untouched (inr off) k u v = let no : covers ql qr k k ≡ false = ground arith in rw no refl

  module _ (action : B) (good : laws.Good action) (ql qr : ℕ) where
    pub update-Makes :
        (fuel : ℕ) {nodes : Arena A} {i l r : ℕ} {f : Elements A}
        → Holds laws nodes i f l r
        → r - l < fuel
        → ql ≤ r
        → l ≤ qr
        → Makes laws nodes
            (applied laws ql qr action f)
            l
            r
            (update p fuel i l r ql qr action nodes)
    unfolding update
    update-Makes zero h enough u v = absurd (omega arith)
    update-Makes (suc fuel) {nodes} (leaf {l} {r} {f} {n} at e (exact, fit)) enough u v =
        let test : (l == r) ≡ true = ground arith in
        let on : covers ql qr l l ≡ true = ground arith in
        let value : applied laws ql qr action f l ≡ laws.act action (f l) 1 = rw on refl in
        let single : fold laws.plus f l r ≡ f l = rw (← e) (fold-single laws.plus f l) in
        rw (at, test)
          (Run.bind_lift _ nodes (laws.apply_gives 1 (omega arith) good fit)
            (λ a (ea, fit_a).
              leaf-Makes (applied laws ql qr action f) a e
                (ea ∙ ap (λ x. laws.act action x 1) (exact ∙ single) ∙ sym value) fit_a)
            (λ e bad. (bad, Extends-refl nodes)))
    update-Makes (suc fuel) {nodes} (inner {l} {r} {f} {n} at lt x a b) enough u v =
        let m = midpoint l r in
        let test : (l == r) ≡ false = ground arith in
        rw (at, test)
          (both_step laws (applied laws ql qr action f)
            (if leb ql m then update p fuel n.left_child l m ql qr action else pure n.left_child)
            (if ltb m qr
              then update p fuel n.right_child (m + 1) r ql qr action
              else pure n.right_child)
            lt
            (child_step ql qr action (leb ql m) n.left_child
              (update p fuel n.left_child l m ql qr action) a
              (λ go. update-Makes fuel a (omega arith) (leb→le ql m go) v)
              (λ off. inl (leb→lt ql m off)))
            (λ nodes' ext.
              child_step ql qr action (ltb m qr) n.right_child
                (update p fuel n.right_child (m + 1) r ql qr action) (Holds-Extends laws ext b)
                (λ go.
                  let reach = ltb→lt m qr go in
                  update-Makes fuel (Holds-Extends laws ext b) (omega arith) u (omega arith))
                (λ off. let short = ltb→le m qr off in inr (omega arith))))
