-- ===== src/PolicyTrees/Update.antt =====
-- The recursion of update of PathCopyingActionTree, with and without pushes.
use version_aware_lazy_segtr.Prelude.{
  ℕ, zero, suc, ◌+◌, ◌-◌, ◌≤◌, ◌<◌, ◌≡◌, refl, sym, ap, ◌∙◌, ◌⊎◌, inl, inr, arith, Bool, true,
  false, covers, leb, ltb, if◌then◌else◌, Bool-cases, leb→le, leb→lt, ltb→lt, ltb→le,
}
use version_aware_lazy_segtr.Prelude.Run
use version_aware_lazy_segtr.Prelude.Run.{Action, Run, Ends, pure, lift, returns, raises, ◌>>=◌}
use version_aware_lazy_segtr.Size.{midpoint}
use version_aware_lazy_segtr.Arena.{Extends-refl, Extends-trans}
use version_aware_lazy_segtr.Policy.Interface.{Policy, Laws}
use version_aware_lazy_segtr.PolicyTrees.PathCopying.{Arena, push_into, Descent, update}
use version_aware_lazy_segtr.PolicyTrees.Fold.{Elements, acted, applied}
use version_aware_lazy_segtr.PolicyTrees.Holds.{
  Holds, leaf, inner, Agree, AllSound, root_node, Holds-Extends, Holds-congr,
}
use version_aware_lazy_segtr.PolicyTrees.Steps.{Makes, push_into-Makes, join-Makes}
use version_aware_lazy_segtr.PolicyTrees.Descend.{IsAdmitted, IsDescent, descend-IsDescent}

module _ {A B : Type 0} {p : Policy A B} (laws : Laws p) where
  -- One child: updated, or shared because the range misses it.
  child_step :
      {nodes : Arena A B} {f : Elements A} {l r : ℕ} (ql qr : ℕ) (action : B) (visit : Bool) (c : ℕ)
      (go : Action (Arena A B) ℕ)
      → Holds laws nodes c f l r
      → (visit ≡ true → Makes laws nodes (applied laws ql qr action f) l r (go nodes))
      → (visit ≡ false → (r < ql) ⊎ (qr < l))
      → Makes laws nodes (applied laws ql qr action f) l r ((if visit then go else pure c) nodes)
  child_step ql qr action true c go h step out = step refl
  child_step {nodes} {f} {l} {r} ql qr action false c go h step out =
      returns (Extends-refl nodes, Holds-congr laws h (untouched (out refl)))
    where
      untouched : (r < ql) ⊎ (qr < l) → Agree laws f (applied laws ql qr action f) l r
      untouched (inl off) k u v = let no : covers ql qr k k ≡ false = ground arith in rw no refl
      untouched (inr off) k u v = let no : covers ql qr k k ≡ false = ground arith in rw no refl

  module _ (push : Bool) (admitted : IsAdmitted laws push) (action : B) (good : laws.Good action)
      (ql qr : ℕ) where
    covered-Makes :
        (fuel : ℕ) {nodes : Arena A B} {i l r : ℕ} {f : Elements A}
        → Holds laws nodes i f l r
        → covers ql qr l r ≡ true
        → Makes laws nodes
            (applied laws ql qr action f)
            l
            r
            (update p push (suc fuel) i l r ql qr action nodes)
    unfolding update push_into
    covered-Makes fuel {nodes} {i} {l} {r} {f} h full =
        let (at, _, _) = root_node laws h in
        let pushed = rw at at (push_into-Makes laws action h good) in
        rw (at, full)
          (Run.mono pushed (λ j s (ext, x). (ext, Holds-congr laws x on_all)) (λ e s x. x))
      where
        on_all : Agree laws (acted laws action f) (applied laws ql qr action f) l r
        on_all k u v = let on : covers ql qr k k ≡ true = ground arith in rw on refl

    -- The action on the elements with the tag, from the action on those without it.
    applied-swaps :
        {nodes nodes' : Arena A B} {l r : ℕ} {f : Elements A} {d : Descent B}
        (x : IsDescent laws nodes f l r action d nodes')
        → Agree laws
            (applied laws ql qr action f)
            (acted laws d.retained (applied laws ql qr action x.elements))
            l
            r
    applied-swaps {f} {d} x k u v = elim (Bool-cases (covers ql qr k k)) [
      | inl on ↦
          let e : applied laws ql qr action f k ≡ laws.act action (f k) 1 = rw on refl in
          let e' : applied laws ql qr action x.elements k ≡ laws.act action (x.elements k) 1 =
            rw on refl in
          e ∙ x.swaps k u v ∙ ap (λ y. laws.act d.retained y 1) (sym e')
      | inr off ↦
          let e : applied laws ql qr action f k ≡ f k = rw off refl in
          let e' : applied laws ql qr action x.elements k ≡ x.elements k = rw off refl in
          e ∙ x.tagged k u v ∙ ap (λ y. laws.act d.retained y 1) (sym e')
    ]

    applied-AllSound :
        {l r : ℕ} {f : Elements A}
        → AllSound laws f l r
        → AllSound laws (applied laws ql qr action f) l r
    applied-AllSound sound k u v = elim (Bool-cases (covers ql qr k k)) [
      | inl on ↦ rw on (laws.act_sound 1 good (sound k u v))
      | inr off ↦ rw off (sound k u v)
    ]

    pub update-Makes :
        (fuel : ℕ) {nodes : Arena A B} {i l r : ℕ} {f : Elements A}
        → Holds laws nodes i f l r
        → r - l < fuel
        → ql ≤ r
        → l ≤ qr
        → Makes laws nodes
            (applied laws ql qr action f)
            l
            r
            (update p push fuel i l r ql qr action nodes)
    unfolding update
    update-Makes zero h enough u v = absurd (omega arith)
    update-Makes (suc fuel) (leaf {l} {r} at e x s) enough u v =
        covered-Makes fuel (leaf at e x s) (ground arith)
    update-Makes (suc fuel) {nodes} {i} (inner {l} {r} {f} {g} {n} at lt x s ha hb agree) enough u
          v =
        elim (Bool-cases (covers ql qr l r)) [
          | inl full ↦ covered-Makes fuel (inner {i = i} at lt x s ha hb agree) full
          | inr partial ↦
              let m = midpoint l r in
              rw (at, partial)
                (Run.bind _
                  (descend-IsDescent laws push n action admitted lt good x.2 s ha hb agree)
                  (λ d nodes1 y.
                    let g1 = applied laws ql qr action y.elements in
                    Run.bind _
                      (Run.mono
                        (child_step ql qr action (leb ql m) d.left_child
                          (update p push fuel d.left_child l m ql qr action) y.on_left
                          (λ go. update-Makes fuel y.on_left (omega arith) (leb→le ql m go) v)
                          (λ off. inl (leb→lt ql m off)))
                        (λ j s2 z. z) (λ e s2 (bad, ext). (bad, Extends-trans y.grown ext)))
                      (λ j nodes2 (ext2, h1).
                        let ext12 = Extends-trans y.grown ext2 in
                        let right_there = Holds-Extends laws ext2 y.on_right in
                        Run.bind _
                          (Run.mono
                            (child_step ql qr action (ltb m qr) d.right_child
                              (update p push fuel d.right_child (m + 1) r ql qr action) right_there
                              (λ go.
                                let reach = ltb→lt m qr go in
                                update-Makes fuel right_there (omega arith) u (omega arith))
                              (λ off. let short = ltb→le m qr off in inr (omega arith)))
                            (λ k s3 z. z) (λ e s3 (bad, ext). (bad, Extends-trans ext12 ext)))
                          (λ k nodes3 (ext3, h2).
                            let ext123 = Extends-trans ext12 ext3 in
                            Run.mono
                              (join-Makes laws (applied laws ql qr action f) g1 d.retained lt
                                (Holds-Extends laws ext3 h1) h2 (applied-swaps y)
                                (applied-AllSound s) y.tag_good)
                              (λ o s4 (ext4, h3). (Extends-trans ext123 ext4, h3))
                              (λ e s4 (bad, ext4). (bad, Extends-trans ext123 ext4))))))
        ]
