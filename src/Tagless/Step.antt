-- ===== src/Tagless/Step.antt =====
-- The steps of build and of both updates: a new leaf, and a new node over the results of two
-- recursive calls.
use version_aware_lazy_segtr.Prelude.{ℕ, ◌+◌, ◌<◌, ◌≡◌, refl, arith}
use version_aware_lazy_segtr.Prelude.Int.{ℤ, ◌+ℤ◌}
use version_aware_lazy_segtr.Prelude.Result.{Error, Result, Gives, IsOverflow}
use version_aware_lazy_segtr.Prelude.Run
use version_aware_lazy_segtr.Prelude.Run.{Action, Run, Ends, pure, lift, ◌>>=◌}
use version_aware_lazy_segtr.Policy.Arithmetic.{Exact, Unrepresentable, checked_add-Exact}
use version_aware_lazy_segtr.Size.{midpoint}
use version_aware_lazy_segtr.Segment.{Values, seg_sum}
use version_aware_lazy_segtr.Segment.Sum.{seg_sum-split}
use version_aware_lazy_segtr.Segment.Canonical.{Canonical, halves, total_IsLong}
use version_aware_lazy_segtr.Arena.{
  no_node, Extends, Extends-refl, Extends-trans, append, append-Ends,
}
use version_aware_lazy_segtr.Tagless.{node, join, Arena}
use version_aware_lazy_segtr.Tagless.Holds.{Holds, leaf, inner, root_node, Holds-Extends}

-- A new node that stands for f, over an arena that only grew.
abbrev pub Grown : Arena → Values → ℕ → ℕ → ℕ → Arena → Type 0
Grown nodes f l r i nodes' = Extends nodes nodes' × Holds nodes' i f l r

-- An overflow, over an arena that only grew, because f breaks the numeric contract.
abbrev pub Stopped : Arena → Values → ℕ → ℕ → Error → Arena → Type 0
Stopped nodes f l r e nodes' = IsOverflow e × Extends nodes nodes' × (¬ Canonical f l r)

abbrev pub Makes : Arena → Values → ℕ → ℕ → Run Arena ℕ → Type 0
Makes nodes f l r run = Ends (Grown nodes f l r) (Stopped nodes f l r) run

-- A leaf whose value is calculated.
pub leaf_step :
    {nodes : Arena} {f : Values} {l r : ℕ} {value : Result ℤ}
    → l ≡ r
    → Gives (Exact (seg_sum f l r)) (Unrepresentable (seg_sum f l r)) value
    → Makes nodes f l r ((do s ← lift value; append (node no_node no_node s)) nodes)
leaf_step {nodes} e h =
    Run.bind_lift _ nodes h
      (λ s (es, hs).
        Run.mono (append-Ends (node no_node no_node s) nodes)
          (λ j nodes' (ext, at). (ext, leaf at e (es, rw es hs))) (λ e s h. h))
      (λ e (is, out). (is, Extends-refl nodes, λ c. out (total_IsLong c)))

-- The node over two children.
join-Makes :
    {nodes : Arena} {a b l r : ℕ} (f : Values)
    → l < r
    → Holds nodes a f l (midpoint l r)
    → Holds nodes b f (midpoint l r + 1) r
    → Makes nodes f l r (join a b nodes)
unfolding join
join-Makes {nodes} {a} {b} {l} {r} f below ha hb =
    let (na, at_a, (ea, la)) = root_node ha in
    let (nb, at_b, (eb, lb)) = root_node hb in
    let sums : na.sum +ℤ nb.sum ≡ seg_sum f l r =
      rw (seg_sum-split f l (midpoint l r) r (omega arith) (omega arith), ea, eb) refl in
    rw (at_a, at_b)
      (Run.bind_lift _ nodes (checked_add-Exact na.sum nb.sum la lb)
        (λ s (es, hs).
          let total = rw sums at es in
          let long = rw sums at hs in
          Run.mono (append-Ends (node a b s) nodes)
            (λ j nodes' (ext, at). (
              ext,
              inner at below (Holds-Extends ext ha) (Holds-Extends ext hb) (total, rw total long),
            ))
            (λ e s h. h))
        (λ e (is, out). (is, Extends-refl nodes, λ c. out (rw sums (total_IsLong c)))))

-- Two recursive calls, and the node over their results.
pub both_step :
    {nodes : Arena} {l r : ℕ} (f : Values) (go_left go_right : Action Arena ℕ)
    → l < r
    → Makes nodes f l (midpoint l r) (go_left nodes)
    → ((nodes' : Arena)
        → Extends nodes nodes'
        → Makes nodes' f (midpoint l r + 1) r (go_right nodes'))
    → Makes nodes f l r
        ((do new_left ← go_left; new_right ← go_right; join new_left new_right) nodes)
both_step f go_left go_right below step_left step_right =
    Run.bind _
      (Run.mono step_left (λ i s h. h)
        (λ e s (is, ext, out). (is, ext, λ c. out (halves c below).0)))
      (λ i nodes1 (ext1, ha).
        Run.bind _
          (Run.mono (step_right nodes1 ext1) (λ i s h. h)
            (λ e s (is, ext, out). (is, Extends-trans ext1 ext, λ c. out (halves c below).1)))
          (λ j nodes2 (ext2, hb).
            let ext = Extends-trans ext1 ext2 in
            Run.mono (join-Makes f below (Holds-Extends ext2 ha) hb)
              (λ k s (x, h). (Extends-trans ext x, h))
              (λ e s (is, x, out). (is, Extends-trans ext x, out))))
