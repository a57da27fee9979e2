-- ===== src/PolicyTrees/Pushed/Build.antt =====
-- The recursion of build of PushedLazyTree.
use version_aware_lazy_segtr.Prelude.{
  ℕ, zero, suc, ◌+◌, ◌-◌, ◌*◌, ◌^◌, ◌≤◌, ◌<◌, ◌≡◌, ◌==◌, refl, sym, ◌∙◌, true, inl, inr, arith,
  Bool-cases, eq_of_==, ne_of_==, List, length, length-set, get_or, set, get_elem?-get_or,
  get_elem?-set_self,
}
use version_aware_lazy_segtr.Prelude.Run
use version_aware_lazy_segtr.Prelude.Run.{Run, Ends, returns, raises, done, lift, reads, ◌>>=◌}
use version_aware_lazy_segtr.Prelude.Vector.{
  copies, element, assigned, assigned-ok, get_elem?-copies,
}
use version_aware_lazy_segtr.Size.{midpoint}
use version_aware_lazy_segtr.Policy.Interface.{Policy, Laws}
use version_aware_lazy_segtr.Lazy.Room.{HasRoom, room_here, room_below}
use version_aware_lazy_segtr.PolicyTrees.Fold.{Elements, fold, fold-split, fold-single}
use version_aware_lazy_segtr.PolicyTrees.Holds.{AllSound}
use version_aware_lazy_segtr.PolicyTrees.Build.{of_list, AllFit}
use version_aware_lazy_segtr.PolicyTrees.Pushed.{PushedLazyTree, build}
use version_aware_lazy_segtr.PolicyTrees.Pushed.Holds.{
  Entry, Settled, settled_leaf, settled_inner, Settled-Holds, Holds-kept,
}
use version_aware_lazy_segtr.PolicyTrees.Pushed.Frame.{
  Frame, Frame-trans, Frame-child, Frame-aggregate, aggregate_apart, left_apart,
}
use version_aware_lazy_segtr.PolicyTrees.Pushed.Update.{Settled-aggregate, Settled-kept}

module _ {A B : Type 0} {p : Policy A B} (laws : Laws p) (values : List A)
    (all : AllFit laws values) (m : ℕ) where
  -- The tree that initialize would make of the aggregates.
  abbrev pub over : List A → PushedLazyTree A B
  over output = record {
    aggregates = output;
    tags = copies m p.action_identity;
    array_size = length values;
  }

  abbrev f : Elements A
  f = of_list laws values

  abbrev Builds : (node l r : ℕ) → List A → Run (List A) (Unit {0}) → Type 0
  Builds node l r output run =
      Ends
        (λ w output'.
          (length output' ≡ length output)
          × Frame node (over output) (over output')
          × Settled laws (over output') node f l r)
        (λ e output'. laws.Throws e) run

  sound : (l r : ℕ) → r < length values → AllSound laws f l r
  sound l r lt k u v = (all k (omega arith)).1

  stored-Entry :
      (output : List A) (node l r : ℕ) (a : A)
      → length output ≡ m
      → node < m
      → r < length values
      → a ≡ fold laws.plus f l r
      → laws.Fit a
      → Entry laws (over (set output node a)) node a p.action_identity f l r
  stored-Entry output node l r a size lt inside exact fit = record {
    aggregate_there =
        get_elem?-set_self output node a (get_or output node p.aggregate_identity)
          (get_elem?-get_or output node p.aggregate_identity (omega arith));
    tag_there = get_elem?-copies m node p.action_identity lt;
    exact = exact;
    fit = fit;
    good = laws.identity_good;
    sound = sound l r inside;
  }

  leaf-Builds :
      (output : List A) (node l r : ℕ)
      → length output ≡ m
      → node < m
      → l ≡ r
      → r < length values
      → Builds node l r output
          ((do output ← reads (λ output. assigned output node (f l)); λ old. done tt output) output)
  leaf-Builds output node l r size lt e inside =
      let single : fold laws.plus f l r ≡ f l = rw (← e) (fold-single laws.plus f l) in
      rw
        (assigned-ok output node (f l) (get_or output node p.aggregate_identity)
          (get_elem?-get_or output node p.aggregate_identity (omega arith)))
        (returns (
          length-set output node (f l),
          Frame-aggregate node (f l) (over output),
          settled_leaf
              (stored-Entry output node l r (f l) size lt inside (sym single)
                (all l (omega arith)).0)
              laws.identity_known e,
        ))

  join-Builds :
      (output : List A) (node l r : ℕ)
      → length output ≡ m
      → node < m
      → l < r
      → r < length values
      → Settled laws (over output) (2 * node + 1) f l (midpoint l r)
      → Settled laws (over output) (2 * node + 2) f (midpoint l r + 1) r
      → Builds node l r output (
          (do
            left ← reads (λ output. element output (2 * node + 1))
            right ← reads (λ output. element output (2 * node + 2))
            aggregate ← lift (p.combine left right)
            output ← reads (λ output. assigned output node aggregate)
            λ old. done tt output)
            output)
  join-Builds output node l r size lt below inside ha hb =
      let (c, at_c, ec, fit_c) = Settled-aggregate laws ha in
      let (d, at_d, ed, fit_d) = Settled-aggregate laws hb in
      let split =
        fold-split laws.plus laws.plus_assoc f l (midpoint l r) r (omega arith) (omega arith) in
      rw (at_c, at_d)
        (Run.bind_lift _ output (laws.combine_gives fit_c fit_d)
          (λ b (eb, fit_b).
            rw
              (assigned-ok output node b (get_or output node p.aggregate_identity)
                (get_elem?-get_or output node p.aggregate_identity (omega arith)))
              (returns (
                length-set output node b,
                Frame-aggregate node b (over output),
                settled_inner
                    (stored-Entry output node l r b size lt inside (rw (eb, ec, ed) (sym split))
                      fit_b)
                    laws.identity_known below
                    (Holds-kept laws
                      (aggregate_apart node (2 * node + 1) b (over output) (inl refl))
                      (Settled-Holds laws ha))
                    (Holds-kept laws
                      (aggregate_apart node (2 * node + 2) b (over output) (inr refl))
                      (Settled-Holds laws hb)),
              )))
          (λ e bad. bad))

  pub build-Builds :
      (fuel k : ℕ) (output : List A) (node l r : ℕ)
      → length output ≡ m
      → HasRoom m node k l r
      → l ≤ r
      → r < length values
      → r - l < fuel
      → Builds node l r output (build p fuel values node l r output)
  unfolding build
  build-Builds zero k output node l r size room le inside enough = absurd (omega arith)
  build-Builds (suc fuel) zero output node l r size (fits, room) le inside enough =
      let one : 2 ^ 0 ≡ 1 = refl in
      let same : (l == r) ≡ true = ground arith in
      rw (same, get_elem?-get_or values l p.aggregate_identity (omega arith))
        (leaf-Builds output node l r size (room_here m node 0 l r (fits, room)) (omega arith)
          inside)
  build-Builds (suc fuel) (suc k) output node l r size room le inside enough =
      let lt = room_here m node (suc k) l r room in
      elim (Bool-cases (l == r)) [
        | inl same ↦
            rw (same, get_elem?-get_or values l p.aggregate_identity (omega arith))
              (leaf-Builds output node l r size lt (eq_of_== l r same) inside)
        | inr more ↦
            let mid = midpoint l r in
            let below : l < r = ground (arith, ne_of_== l r more) in
            let (room_left, room_right) = room_below m node k l r below room in
            rw more (
              Run.bind _
                (build-Builds fuel k output (2 * node + 1) l mid size room_left (omega arith)
                  (omega arith) (omega arith))
                λ w output1 (size1, frame1, ha).
                  Run.bind _
                    (build-Builds fuel k output1 (2 * node + 2) (mid + 1) r (size1 ∙ size)
                      room_right (omega arith) (omega arith) (omega arith))
                    λ w' output2 (size2, frame2, hb).
                      Run.mono
                        (join-Builds output2 node l r (size2 ∙ size1 ∙ size) lt below inside
                          (Settled-kept laws (left_apart node frame2) ha) hb)
                        (λ w'' output3 (size3, frame3, h). (
                          size3 ∙ size2 ∙ size1,
                          Frame-trans (Frame-child (inl refl) frame1)
                              (Frame-trans (Frame-child (inr refl) frame2) frame3),
                          h,
                        ))
                        (λ e s bad. bad))
      ]
