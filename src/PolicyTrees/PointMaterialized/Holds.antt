-- ===== src/PolicyTrees/PointMaterialized/Holds.antt =====
-- What a node of PointMaterializedPersistentTree stands for, and the steps that make one.
use version_aware_lazy_segtr.Prelude.{ℕ, ◌+◌, ◌≤◌, ◌<◌, ◌≡◌, sym, ◌∙◌, arith, some, get_elem?}
use version_aware_lazy_segtr.Prelude.Result.{Error}
use version_aware_lazy_segtr.Prelude.Run
use version_aware_lazy_segtr.Prelude.Run.{Action, Run, Ends, pure, lift, ◌>>=◌}
use version_aware_lazy_segtr.Size.{midpoint}
use version_aware_lazy_segtr.Arena.{Extends, Extends-refl, Extends-trans, Extends-get, append-Ends}
use version_aware_lazy_segtr.Policy.Interface.{Policy, Laws}
use version_aware_lazy_segtr.PolicyTrees.PointMaterialized.{Node, node, Arena, join}
use version_aware_lazy_segtr.PolicyTrees.Fold.{Elements, fold, fold-congr, fold-split}

module _ {A B : Type 0} {p : Policy A B} (laws : Laws p) where
  abbrev pub Agree : Elements A → Elements A → ℕ → ℕ → Type 0
  Agree f g l r = (k : ℕ) → l ≤ k → k ≤ r → f k ≡ g k

  abbrev pub IsExact : Node A → Elements A → ℕ → ℕ → Type 0
  IsExact n f l r = (n.aggregate ≡ fold laws.plus f l r) × laws.Fit n.aggregate

  pub data Holds (nodes : Arena A) : ℕ → Elements A → ℕ → ℕ → Type 0 where
    leaf :
        {i l r : ℕ} {f : Elements A} {n : Node A}
        → get_elem? nodes i ≡ some n
        → l ≡ r
        → IsExact n f l r
        → Holds nodes i f l r
    inner :
        {i l r : ℕ} {f : Elements A} {n : Node A}
        → get_elem? nodes i ≡ some n
        → l < r
        → IsExact n f l r
        → Holds nodes n.left_child f l (midpoint l r)
        → Holds nodes n.right_child f (midpoint l r + 1) r
        → Holds nodes i f l r

  pub root_node :
      {nodes : Arena A} {i l r : ℕ} {f : Elements A}
      → Holds nodes i f l r
      → (n : Node A) × (get_elem? nodes i ≡ some n) × IsExact n f l r
  root_node (leaf {n} at e x) = (n, at, x)
  root_node (inner {n} at lt x a b) = (n, at, x)

  -- Only the elements of the segment matter.
  pub Holds-congr :
      {nodes : Arena A} {i l r : ℕ} {f g : Elements A}
      → Holds nodes i f l r
      → Agree f g l r
      → Holds nodes i g l r
  Holds-congr {l} {r} {f} {g} (leaf at e (x, fit)) same =
      leaf at e (x ∙ fold-congr laws.plus f g l r (omega arith) same, fit)
  Holds-congr {l} {r} {f} {g} (inner at lt (x, fit) a b) same =
      inner at lt (x ∙ fold-congr laws.plus f g l r (omega arith) same, fit)
        (Holds-congr a (λ k u v. same k u (omega arith)))
        (Holds-congr b (λ k u v. same k (omega arith) v))

  -- A node keeps its meaning when the arena grows.
  pub Holds-Extends :
      {nodes nodes' : Arena A} {i l r : ℕ} {f : Elements A}
      → Extends nodes nodes'
      → Holds nodes i f l r
      → Holds nodes' i f l r
  Holds-Extends x (leaf {i} {n} at e exact) = leaf (Extends-get i n x at) e exact
  Holds-Extends x (inner {i} {n} at lt exact a b) =
      inner (Extends-get i n x at) lt exact (Holds-Extends x a) (Holds-Extends x b)

  abbrev pub Grown : Arena A → Elements A → ℕ → ℕ → ℕ → Arena A → Type 0
  Grown nodes f l r i nodes' = Extends nodes nodes' × Holds nodes' i f l r

  abbrev pub Stopped : Arena A → Error → Arena A → Type 0
  Stopped nodes e nodes' = laws.Throws e × Extends nodes nodes'

  abbrev pub Makes : Arena A → Elements A → ℕ → ℕ → Run (Arena A) ℕ → Type 0
  Makes nodes f l r run = Ends (Grown nodes f l r) (Stopped nodes) run

  -- The node over two children.
  join-Makes :
      {nodes : Arena A} {i j l r : ℕ} (f : Elements A)
      → l < r
      → Holds nodes i f l (midpoint l r)
      → Holds nodes j f (midpoint l r + 1) r
      → Makes nodes f l r (join p i j nodes)
  unfolding join
  join-Makes {nodes} {i} {j} {l} {r} f lt ha hb =
      let (na, at_a, (ea, fit_a)) = root_node ha in
      let (nb, at_b, (eb, fit_b)) = root_node hb in
      let split =
        fold-split laws.plus laws.plus_assoc f l (midpoint l r) r (omega arith) (omega arith) in
      rw (at_a, at_b)
        (Run.bind_lift _ nodes (laws.combine_gives fit_a fit_b)
          (λ c (ec, fit).
            let exact : c ≡ fold laws.plus f l r = rw (ec, ea, eb) (sym split) in
            Run.mono (append-Ends (node i j c) nodes)
              (λ k nodes' (ext, new).
                (ext, inner new lt (exact, fit) (Holds-Extends ext ha) (Holds-Extends ext hb)))
              (λ e s x. x))
          (λ e bad. (bad, Extends-refl nodes)))

  -- Two recursive calls, and the node over their results.
  pub both_step :
      {nodes : Arena A} {l r : ℕ} (f : Elements A) (go_left go_right : Action (Arena A) ℕ)
      → l < r
      → Makes nodes f l (midpoint l r) (go_left nodes)
      → ((nodes' : Arena A)
          → Extends nodes nodes'
          → Makes nodes' f (midpoint l r + 1) r (go_right nodes'))
      → Makes nodes f l r
          ((do new_left ← go_left; new_right ← go_right; join p new_left new_right) nodes)
  both_step f go_left go_right lt step_left step_right = Run.bind _ step_left λ i nodes1 (ext1, ha).
      Run.bind _
        (Run.mono (step_right nodes1 ext1) (λ j s x. x)
          (λ e s (bad, ext). (bad, Extends-trans ext1 ext)))
        λ j nodes2 (ext2, hb).
          let ext = Extends-trans ext1 ext2 in
          Run.mono (join-Makes f lt (Holds-Extends ext2 ha) hb)
            (λ k s (x, h). (Extends-trans ext x, h)) (λ e s (bad, x). (bad, Extends-trans ext x))
