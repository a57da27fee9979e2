-- ===== src/PolicyTrees/Pushed/Query.antt =====
-- The recursion of query of PushedLazyTree, which pushes on its way.
use version_aware_lazy_segtr.Prelude.{
  ℕ, zero, suc, ◌+◌, ◌-◌, ◌*◌, ◌≤◌, ◌<◌, ◌≡◌, ◌||◌, refl, true, false, inl, inr, Bool-cases, arith,
  ltb, covers,
}
use version_aware_lazy_segtr.Prelude.Result.{Result, Gives, gives, throws}
use version_aware_lazy_segtr.Prelude.Run
use version_aware_lazy_segtr.Prelude.Run.{Run, Ends, returns, raises, lift, Action, ◌>>=◌, ◌>>◌}
use version_aware_lazy_segtr.Size.{midpoint}
use version_aware_lazy_segtr.Policy.Interface.{Policy, Laws}
use version_aware_lazy_segtr.PolicyTrees.Fold.{Elements, fold}
use version_aware_lazy_segtr.PolicyTrees.Query.{Answers, missed, combined, later, earlier}
use version_aware_lazy_segtr.PolicyTrees.Pushed.{PushedLazyTree, query}
use version_aware_lazy_segtr.PolicyTrees.Pushed.Holds.{
  Holds, Settled, settled_leaf, settled_inner, Settled-Holds, Entry-kept, Holds-kept,
}
use version_aware_lazy_segtr.PolicyTrees.Pushed.Frame.{
  Frame, Frame-trans, Frame-child, parent_kept, right_apart, left_apart,
}
use version_aware_lazy_segtr.PolicyTrees.Pushed.Push.{push-Settles}
use version_aware_lazy_segtr.PolicyTrees.Pushed.Update.{Settled-aggregate}

module _ {A B : Type 0} {p : Policy A B} (laws : Laws p) (ql qr : ℕ) (within : ql ≤ qr) where
  -- The answer, in a state in which the subtree still stands for the same elements.
  abbrev Seen : ℕ → Elements A → ℕ → ℕ → PushedLazyTree A B → A → PushedLazyTree A B → Type 0
  Seen node f l r tree c tree' =
      Frame node tree tree' × Holds laws tree' node f l r × Answers laws ql qr within f l r c

  abbrev Looks : ℕ → Elements A → ℕ → ℕ → PushedLazyTree A B → Run (PushedLazyTree A B) A → Type 0
  Looks node f l r tree run = Ends (Seen node f l r tree) (λ e tree'. laws.Throws e) run

  covered_answer :
      (f : Elements A) (l r : ℕ) (a : A)
      → l ≤ r
      → covers ql qr l r ≡ true
      → a ≡ fold laws.plus f l r
      → laws.Fit a
      → Answers laws ql qr within f l r a
  covered_answer f l r a le full exact fit =
      let met : (ltb r ql || ltb qr l) ≡ false = ground arith in
      let first : later ql l ≡ l = ground arith in
      let last : earlier qr r ≡ r = ground arith in (fit, inr (met, rw (first, last) exact))

  lifted :
      {P : A → Type 0} {Q : A → PushedLazyTree A B → Type 0} (tree : PushedLazyTree A B)
      {m : Result A}
      → Gives P laws.Throws m
      → ((c : A) → P c → Q c tree)
      → Ends Q (λ e tree'. laws.Throws e) (lift m tree)
  lifted tree (gives h) next = returns (next _ h)
  lifted tree (throws bad) next = raises bad

  partial-Looks :
      (tree tree1 : PushedLazyTree A B) {node l r : ℕ} {f : Elements A}
      (go_left go_right : Action (PushedLazyTree A B) A)
      → Frame node tree tree1
      → Settled laws tree1 node f l r
      → (ltb r ql || ltb qr l) ≡ false
      → covers ql qr l r ≡ false
      → (l < r
          → Holds laws tree1 (2 * node + 1) f l (midpoint l r)
          → Looks (2 * node + 1) f l (midpoint l r) tree1 (go_left tree1))
      → ((tree2 : PushedLazyTree A B)
          → l < r
          → Holds laws tree2 (2 * node + 2) f (midpoint l r + 1) r
          → Looks (2 * node + 2) f (midpoint l r + 1) r tree2 (go_right tree2))
      → Looks node f l r tree
          ((do left ← go_left; right ← go_right; lift (p.combine left right)) tree1)
  partial-Looks tree tree1 go_left go_right frame1 (settled_leaf x none_there e) met off look_left
        look_right =
      absurd (ground arith)
  partial-Looks tree tree1 {f} go_left go_right frame1
        (settled_inner {node} {l} {r} x none_there lt ha hb) met off look_left look_right =
      let left = 2 * node + 1 in
      let right = 2 * node + 2 in
      Run.bind _ (look_left lt ha) λ a tree2 (frame2, ha2, answer_a).
        Run.bind _ (look_right tree2 lt (Holds-kept laws (right_apart node frame2) hb))
          λ b tree3 (frame3, hb3, answer_b).
            lifted tree3
              (combined laws ql qr within f l (midpoint l r) r a b (omega arith, omega arith) met
                answer_a answer_b)
              (λ c answer. (
                Frame-trans frame1
                    (Frame-trans (Frame-child (inl refl) frame2) (Frame-child (inr refl) frame3)),
                Settled-Holds laws (
                    settled_inner
                      (Entry-kept laws {tree = tree2} (parent_kept node right (inr refl) frame3)
                        (Entry-kept laws (parent_kept node left (inl refl) frame2) x))
                      none_there lt (Holds-kept laws (left_apart node frame3) ha2) hb3),
                answer,
              ))

  -- On a node that stands for elements, the query returns those in the range, combined in index
  -- order, and the subtree still stands for the same elements, or the policy throws.
  pub query-Looks :
      (fuel : ℕ) {tree : PushedLazyTree A B} {node l r : ℕ} {f : Elements A}
      → Holds laws tree node f l r
      → l ≤ r
      → r - l < fuel
      → Looks node f l r tree (query p fuel node l r ql qr tree)
  unfolding query
  query-Looks zero h le enough = absurd (omega arith)
  query-Looks (suc fuel) {tree} {node} {l} {r} {f} h le enough =
      Run.bind _ (push-Settles laws h) λ w tree1 (frame1, settled).
        elim (Bool-cases (ltb r ql || ltb qr l)) [
          | inl out ↦
              rw out
                (returns (frame1, Settled-Holds laws settled, missed laws ql qr within f l r out))
          | inr met ↦ elim (Bool-cases (covers ql qr l r)) [
            | inl full ↦
                let (a, there, exact, fit) = Settled-aggregate laws settled in
                rw (met, full, there)
                  (returns
                    (frame1, Settled-Holds laws settled, covered_answer f l r a le full exact fit))
            | inr off ↦
                rw (met, off)
                  (partial-Looks tree tree1 (query p fuel (2 * node + 1) l (midpoint l r) ql qr)
                    (query p fuel (2 * node + 2) (midpoint l r + 1) r ql qr) frame1 settled met off
                    (λ lt ha. query-Looks fuel ha (omega arith) (omega arith))
                    (λ tree2 lt hb. query-Looks fuel hb (omega arith) (omega arith)))
          ]
        ]
