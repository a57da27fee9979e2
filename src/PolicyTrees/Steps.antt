-- ===== src/PolicyTrees/Steps.antt =====
-- The steps of build and update of PathCopyingActionTree: a node on which an action is composed, and
-- a new node over two children.
use version_aware_lazy_segtr.Prelude.{
  ℕ, ◌+◌, ◌-◌, ◌≤◌, ◌<◌, ◌≡◌, sym, ap, ◌∙◌, arith, some, get_elem?,
}
use version_aware_lazy_segtr.Prelude.Result.{Error}
use version_aware_lazy_segtr.Prelude.Run
use version_aware_lazy_segtr.Prelude.Run.{Action, Run, Ends, pure, lift, returns, raises, ◌>>=◌}
use version_aware_lazy_segtr.Size.{midpoint}
use version_aware_lazy_segtr.Arena.{read, Extends, Extends-refl, append, append-Ends}
use version_aware_lazy_segtr.Policy.Interface.{Policy, Laws}
use version_aware_lazy_segtr.PolicyTrees.PathCopying.{Node, node, Arena, push_into}
use version_aware_lazy_segtr.PolicyTrees.Fold.{
  Elements, fold, fold-congr, fold-split, fold-acted, acted,
}
use version_aware_lazy_segtr.PolicyTrees.Holds.{
  Holds, leaf, inner, Agree, AllSound, IsExact, top, root_node, Holds-Extends,
}

module _ {A B : Type 0} {p : Policy A B} (laws : Laws p) where
  -- A new node that stands for f, over an arena that only grew.
  abbrev pub Grown : Arena A B → Elements A → ℕ → ℕ → ℕ → Arena A B → Type 0
  Grown nodes f l r i nodes' = Extends nodes nodes' × Holds laws nodes' i f l r

  -- An exception of the policy, over an arena that only grew.
  abbrev pub Stopped : Arena A B → Error → Arena A B → Type 0
  Stopped nodes e nodes' = laws.Throws e × Extends nodes nodes'

  abbrev pub Makes : Arena A B → Elements A → ℕ → ℕ → Run (Arena A B) ℕ → Type 0
  Makes nodes f l r run = Ends (Grown nodes f l r) (Stopped nodes) run

  acted-IsExact :
      (n : Node A B) (f : Elements A) (l r i j : ℕ) (t : B) (a : A) (u : B)
      → l ≤ r
      → IsExact laws n f l r
      → laws.Good t
      → (a ≡ laws.act t n.aggregate (r - l + 1)) × laws.Fit a
      → (u ≡ laws.comp t n.tag) × laws.Good u
      → IsExact laws (node i j a u) (acted laws t f) l r
  acted-IsExact n f l r i j t a u le (exact, fit, good_tag) good (ea, fit_a) (eu, good_u) = (
    ea ∙ ap (λ x. laws.act t x (r - l + 1)) exact ∙ sym (fold-acted laws t f l r le good),
    fit_a,
    good_u,
  )

  -- The copy of a node with an action composed outside its tag.
  acted-Holds :
      {nodes nodes' : Arena A B} {i j l r : ℕ} {f : Elements A} (t : B) (a : A) (u : B)
      → (h : Holds laws nodes i f l r) → laws.Good t
      → (a ≡ laws.act t (top laws h).aggregate (r - l + 1)) × laws.Fit a
      → (u ≡ laws.comp t (top laws h).tag) × laws.Good u
      → Extends nodes nodes'
      → get_elem? nodes' j ≡ some (node (top laws h).left_child (top laws h).right_child a u)
      → Holds laws nodes' j (acted laws t f) l r
  acted-Holds {j} {l} {r} {f} t a u (leaf {n} at e x s) good aggregate tag ext new =
      leaf new e
        (acted-IsExact n f l r n.left_child n.right_child t a u (omega arith) x good aggregate tag)
        (λ k p q. laws.act_sound 1 good (s k p q))
  acted-Holds {j} {l} {r} {f} t a u (inner {g} {n} at lt x s ha hb agree) good aggregate tag ext
        new =
      inner new lt
        (acted-IsExact n f l r n.left_child n.right_child t a u (omega arith) x good aggregate tag)
        (λ k p q. laws.act_sound 1 good (s k p q)) (Holds-Extends laws ext ha)
        (Holds-Extends laws ext hb)
        (λ k p q.
          ap (λ y. laws.act t y 1) (agree k p q)
          ∙ sym (laws.act_comp (g k) 1 good x.2)
          ∙ ap (λ y. laws.act y (g k) 1) (sym tag.0))

  -- The steps of push_into, and of update on a covered node.
  pub push_into-Makes :
      {nodes : Arena A B} {i l r : ℕ} {f : Elements A} (t : B)
      → Holds laws nodes i f l r
      → laws.Good t
      → Makes nodes (acted laws t f) l r (push_into p i t (r - l + 1) nodes)
  unfolding push_into
  push_into-Makes {nodes} {l} {r} t h good =
      let (at, (exact, fit, good_tag), sound) = root_node laws h in
      let n = top laws h in
      rw at (
        Run.bind_lift _ nodes (laws.apply_gives (r - l + 1) (omega arith) good fit)
          (λ a aggregate.
            Run.bind_lift _ nodes (laws.compose_gives good good_tag)
              (λ u tag.
                Run.mono (append-Ends (node n.left_child n.right_child a u) nodes)
                  (λ j nodes' (ext, new). (ext, acted-Holds t a u h good aggregate tag ext new))
                  (λ e s x. x))
              (λ e bad. (bad, Extends-refl nodes)))
          (λ e bad. (bad, Extends-refl nodes)))

  -- A new node over two children, with a tag that their elements miss.
  pub join-Makes :
      {nodes : Arena A B} {i j l r : ℕ} (f g : Elements A) (t : B)
      → l < r
      → Holds laws nodes i g l (midpoint l r)
      → Holds laws nodes j g (midpoint l r + 1) r
      → Agree laws f (acted laws t g) l r
      → AllSound laws f l r
      → laws.Good t
      → Makes nodes f l r (
          (do
            left ← read i
            right ← read j
            children ← lift (p.combine left.aggregate right.aggregate)
            aggregate ← lift (p.apply t children (r - l + 1))
            append (node i j aggregate t))
            nodes)
  join-Makes {nodes} {i} {j} {l} {r} f g t lt ha hb agree sound good =
      let (at_a, (ea, fit_a, _), _) = root_node laws ha in
      let (at_b, (eb, fit_b, _), _) = root_node laws hb in
      let split =
        fold-split laws.plus laws.plus_assoc g l (midpoint l r) r (omega arith) (omega arith) in
      rw (at_a, at_b)
        (Run.bind_lift _ nodes (laws.combine_gives fit_a fit_b)
          (λ c (ec, fit_c).
            Run.bind_lift _ nodes (laws.apply_gives (r - l + 1) (omega arith) good fit_c)
              (λ a (e, fit).
                let children : c ≡ fold laws.plus g l r = rw (ec, ea, eb) (sym split) in
                let exact : a ≡ fold laws.plus f l r =
                  e
                  ∙ ap (λ x. laws.act t x (r - l + 1)) children
                  ∙ sym (fold-acted laws t g l r (omega arith) good)
                  ∙ sym (fold-congr laws.plus f (acted laws t g) l r (omega arith) agree) in
                Run.mono (append-Ends (node i j a t) nodes)
                  (λ k nodes' (ext, new). (
                    ext,
                    inner new lt (exact, fit, good) sound (Holds-Extends laws ext ha)
                        (Holds-Extends laws ext hb) agree,
                  ))
                  (λ e s x. x))
              (λ e bad. (bad, Extends-refl nodes)))
          (λ e bad. (bad, Extends-refl nodes)))
