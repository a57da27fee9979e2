-- ===== src/Persistent/Step.antt =====
-- The steps of update in src/persistent_lazy_segment_tree.cpp: a node that the range covers, a child
-- that is visited or shared, and the parent over two children.
use mathlib.Core.Path.{subst}
use mathlib.Core.Option.{Option}
use version_aware_lazy_segtr.Prelude.{
  ℕ, ◌+◌, ◌-◌, ◌≤◌, ◌<◌, ◌≡◌, refl, ◌∙◌, true, false, Bool, some, arith, covers, if◌then◌else◌,
  get_elem?,
}
use version_aware_lazy_segtr.Prelude.Int.{ℤ, pos, ◌+ℤ◌, ◌*ℤ◌, int_laws}
use version_aware_lazy_segtr.Prelude.Result.{Error, IsOverflow}
use version_aware_lazy_segtr.Prelude.Run
use version_aware_lazy_segtr.Prelude.Run.{Action, Run, Ends, returns, raises, pure, lift, ◌>>=◌}
use version_aware_lazy_segtr.Policy.{IsLong, checked_add}
use version_aware_lazy_segtr.Policy.Arithmetic.{checked_add-Gives}
use version_aware_lazy_segtr.Policy.SumAdd.{apply}
use version_aware_lazy_segtr.Policy.SumAdd.Exact.{apply-Gives}
use version_aware_lazy_segtr.Size.{midpoint}
use version_aware_lazy_segtr.Segment.{Values, seg_sum, add_range, plus}
use version_aware_lazy_segtr.Segment.Sum.{Agree, seg_sum-split, seg_sum-congr, seg_sum-plus}
use version_aware_lazy_segtr.Arena.{Extends, Extends-refl, Extends-trans, read, append, append-Ends}
use version_aware_lazy_segtr.Persistent.Write.{Node, node, Arena}
use version_aware_lazy_segtr.Persistent.Holds.{
  IsExact, Holds, leaf, inner, root_node, Holds-congr, Holds-Extends,
}

-- A new node that stands for f, over an arena that only grew.
abbrev pub Grown : Arena → Values → ℕ → ℕ → ℕ → Arena → Type 0
Grown nodes f l r i nodes' = Extends nodes nodes' × Holds nodes' i f l r

-- An overflow, over an arena that only grew.
abbrev pub Stopped : Arena → Error → Arena → Type 0
Stopped nodes e nodes' = IsOverflow e × Extends nodes nodes'

module _ (f g : Values) (t : ℤ) (l r : ℕ) (below : l < r) (same : Agree f (plus g t) l r) where
  -- The invariant of an inner node: the sums of the children, and the tag once for each element.
  pub sum_of_children :
      seg_sum f l r
      ≡ seg_sum g l (midpoint l r) +ℤ seg_sum g (midpoint l r + 1) r +ℤ t *ℤ pos (r + 1 - l)
  sum_of_children =
      seg_sum-congr f (plus g t) l r same
      ∙ seg_sum-plus g t l r
      ∙ rw (seg_sum-split g l (midpoint l r) r (omega arith) (omega arith))

pub same_node : {m n : Node} {o : Option Node} → o ≡ some m → o ≡ some n → m ≡ n
same_node p q = cc

-- Results over a grown arena, seen from the arena that it grew from.
pub Grown-further :
    {nodes nodes' : Arena} {f : Values} {l r : ℕ} {run : Run Arena ℕ}
    → Extends nodes nodes'
    → Ends (Grown nodes' f l r) (Stopped nodes') run
    → Ends (Grown nodes f l r) (Stopped nodes) run
Grown-further ext run =
    Run.mono run (λ i s (x, h). (Extends-trans ext x, h)) (λ e s (h, x). (h, Extends-trans ext x))

-- One child of a partial descent: visited, or shared because its values do not change.
pub child_step :
    {nodes : Arena} {g g' : Values} {l r : ℕ} (visit : Bool) (c : ℕ) (go : Action Arena ℕ)
    → Holds nodes c g l r
    → (visit ≡ true → Ends (Grown nodes g' l r) (Stopped nodes) (go nodes))
    → (visit ≡ false → Agree g g' l r)
    → Ends (Grown nodes g' l r) (Stopped nodes) ((if visit then go else pure c) nodes)
child_step true c go h step same = step refl
child_step {nodes} false c go h step same = returns (Extends-refl nodes, Holds-congr h (same refl))

-- The end of a partial descent: the parent over two children, with the tag that it keeps.
abbrev pub parent : (left right len : ℕ) → ℤ → Action Arena ℕ
parent new_left new_right len t = do
  left ← read new_left
  right ← read new_right
  children ← lift (checked_add left.sum right.sum)
  sum ← lift (apply t children len)
  append (node new_left new_right sum t)

pub parent-Ends :
    {nodes : Arena} {a b l r : ℕ} (f g : Values) (t : ℤ) (len : ℕ)
    → l < r
    → len ≡ r + 1 - l
    → Holds nodes a g l (midpoint l r)
    → Holds nodes b g (midpoint l r + 1) r
    → Agree f (plus g t) l r
    → IsLong t
    → Ends (Grown nodes f l r) (Stopped nodes) (parent a b len t nodes)
parent-Ends {nodes} {a} {b} {l} {r} f g t len below elen ha hb same ht =
    let (na, at_a, xa) = root_node ha in
    let (nb, at_b, xb) = root_node hb in
    rw (at_a, at_b, elen)
      (Run.bind_lift _ nodes (checked_add-Gives na.sum nb.sum xa.sum_long xb.sum_long)
        (λ c (ec, hc).
          Run.bind_lift _ nodes (apply-Gives t c (r + 1 - l) ht (rw ec hc))
            (λ s (es, hs).
              Run.mono (append-Ends (node a b s t) nodes)
                (λ j nodes' (ext, at). (
                  ext,
                  inner at below (Holds-Extends ext ha) (Holds-Extends ext hb) same (record {
                    sum_exact =
                        rw
                          (
                            sum_of_children f g t l r below same,
                            ← xa.sum_exact,
                            ← xb.sum_exact,
                            ← ec,
                          )
                          es;
                    sum_long = rw es hs;
                    lazy_long = ht;
                  }),
                ))
                (λ e s h. h))
            (λ e h. (h, Extends-refl nodes)))
        (λ e h. (h, Extends-refl nodes)))

module _ (v : ℤ) (ql qr : ℕ) where
  -- What a covered node becomes: its children stay, its sum and its tag take the action.
  pub covered-Holds :
      {nodes nodes' : Arena} {i j l r : ℕ} {f : Values} (n : Node) (s t : ℤ)
      → Holds nodes i f l r
      → get_elem? nodes i ≡ some n
      → Extends nodes nodes'
      → get_elem? nodes' j ≡ some (node n.left_child n.right_child s t)
      → ql ≤ l
      → r ≤ qr
      → t ≡ n.lazy +ℤ v
      → IsExact (node n.left_child n.right_child s t) (add_range f ql qr v) l r
      → Holds nodes' j (add_range f ql qr v) l r
  covered-Holds n s t (leaf at' e x) at ext at_new p q et exact = leaf at_new e exact
  covered-Holds {nodes} n s t (inner {l} {r} {f} {g} {n = n'} at' lt a b same x) at ext at_new p q
        et exact =
      let e : n' ≡ n = same_node at' at in
      inner at_new lt
        (Holds-Extends ext (subst (λ (k : Node). Holds nodes k.left_child g l (midpoint l r)) e a))
        (Holds-Extends ext
          (subst (λ (k : Node). Holds nodes k.right_child g (midpoint l r + 1) r) e b))
        (λ k c d.
          covered_value k (omega arith) (omega arith)
            (subst (λ (m : Node). f k ≡ g k +ℤ m.lazy) e (same k c d)))
        exact
    where
      covered_value :
          (k : ℕ) → ql ≤ k → k ≤ qr → f k ≡ g k +ℤ n.lazy → add_range f ql qr v k ≡ g k +ℤ t
      covered_value k c d h =
          let on : covers ql qr k k ≡ true = ground arith in rw (on, h, et) (omega int_laws)
