-- ===== src/Persistent/Build.antt =====
-- The recursion of build in src/persistent_lazy_segment_tree.cpp.
use version_aware_lazy_segtr.Prelude.{
  ℕ, zero, suc, ◌+◌, ◌-◌, ◌≤◌, ◌<◌, ◌≡◌, refl, sym, inl, inr, some, List, arith, ◌==◌, Bool-cases,
  eq_of_==, ne_of_==, length, get_elem?, get_elem?-get_or,
}
use version_aware_lazy_segtr.Prelude.Int.{+ℤ-zero, ℤ, pos, ◌+ℤ◌}
use version_aware_lazy_segtr.Prelude.Run
use version_aware_lazy_segtr.Prelude.Run.{Action, Run, Ends, returns, raises, pure, lift, ◌>>=◌}
use version_aware_lazy_segtr.Policy.{IsLong, checked_add}
use version_aware_lazy_segtr.Policy.Arithmetic.{checked_add-Exact}
use version_aware_lazy_segtr.Size.{midpoint}
use version_aware_lazy_segtr.Segment.{Values, of_list, AllLong, seg_sum}
use version_aware_lazy_segtr.Segment.Sum.{seg_sum-single, seg_sum-split}
use version_aware_lazy_segtr.Arena.{
  no_node, Extends, Extends-refl, Extends-trans, read, append, append-Ends,
}
use version_aware_lazy_segtr.Persistent.Write.{node, Arena, build}
use version_aware_lazy_segtr.Persistent.Step.{Grown, Stopped}
use version_aware_lazy_segtr.Persistent.Holds.{Holds, root_node, Holds-Extends}
use version_aware_lazy_segtr.Segment.Canonical.{Canonical, leaf, inner, total_IsLong, halves}

-- An exact node without a tag.
fresh_inner :
    {nodes nodes' : Arena} {a b j l r : ℕ} (f : Values) (s : ℤ)
    → l < r
    → Extends nodes nodes'
    → get_elem? nodes' j ≡ some (node a b s (pos 0))
    → Holds nodes a f l (midpoint l r)
    → Holds nodes b f (midpoint l r + 1) r
    → s ≡ seg_sum f l r
    → IsLong s
    → Holds nodes' j f l r
fresh_inner {l} {r} f s below ext at ha hb es hs =
    Holds.inner at below (Holds-Extends ext ha) (Holds-Extends ext hb)
      (λ k p q. sym (+ℤ-zero (f k)))
      (record { sum_exact = es; sum_long = hs; lazy_long = omega arith })

-- The node over two children.
join_step :
    {nodes : Arena} {a b l r : ℕ} (f : Values)
    → l < r
    → Holds nodes a f l (midpoint l r)
    → Holds nodes b f (midpoint l r + 1) r
    → Canonical f l (midpoint l r)
    → Canonical f (midpoint l r + 1) r
    → Ends
        (λ i nodes'. Grown nodes f l r i nodes' × Canonical f l r)
        (λ e nodes'. Stopped nodes e nodes' × (¬ Canonical f l r))
        ((do
          left ← read a
          right ← read b
          sum ← lift (checked_add left.sum right.sum)
          append (node a b sum (pos 0)))
          nodes)
join_step {nodes} {a} {b} {l} {r} f below ha hb ca cb =
    let (na, at_a, xa) = root_node ha in
    let (nb, at_b, xb) = root_node hb in
    let sums : na.sum +ℤ nb.sum ≡ seg_sum f l r =
      rw
        (seg_sum-split f l (midpoint l r) r (omega arith) (omega arith), xa.sum_exact, xb.sum_exact)
        refl in
    rw (at_a, at_b)
      (Run.bind_lift _ nodes (checked_add-Exact na.sum nb.sum xa.sum_long xb.sum_long)
        (λ s (es, hs).
          let total = rw sums at es in
          let long = rw sums at hs in
          Run.mono (append-Ends (node a b s (pos 0)) nodes)
            (λ j nodes' (ext, at). (
              (ext, fresh_inner f s below ext at ha hb total (rw total long)),
              inner below ca cb long,
            ))
            (λ e s h. h))
        (λ e (is, out). ((is, Extends-refl nodes), λ c. out (rw sums (total_IsLong c)))))

module _ (values : List ℤ) (all : AllLong values) where
  abbrev f : Values
  f = of_list values

  pub build-Ends :
      (fuel : ℕ) (nodes : Arena) (l r : ℕ)
      → l ≤ r
      → r < length values
      → r - l < fuel
      → Ends
          (λ i nodes'. Grown nodes f l r i nodes' × Canonical f l r)
          (λ e nodes'. Stopped nodes e nodes' × (¬ Canonical f l r))
          (build fuel values l r nodes)
  unfolding build
  build-Ends zero nodes l r le lt enough = absurd (omega arith)
  build-Ends (suc fuel) nodes l r le lt enough = elim (Bool-cases (l == r)) [
    | inl same ↦
        rw (same, get_elem?-get_or values l (pos 0) (omega arith))
          (Run.mono (append-Ends (node no_node no_node (f l) (pos 0)) nodes)
            (λ j nodes' (ext, at).
              let e : l ≡ r = eq_of_== l r same in
              let single : seg_sum f l r ≡ f l = rw (← e) (seg_sum-single f l) in
              let long : IsLong (f l) = all l (omega arith) in
              (
                (
                  ext,
                  Holds.leaf at e
                      (record { sum_exact = sym single; sum_long = long; lazy_long = omega arith }),
                ),
                leaf e (rw single long),
              ))
            (λ e s h. h))
    | inr more ↦ rw more (
        let m = midpoint l r in
        let below : l < r = ground (arith, ne_of_== l r more) in
        Run.bind _
          (Run.mono (build-Ends fuel nodes l m (omega arith) (omega arith) (omega arith))
            (λ i s h. h) (λ e s (h, out). (h, λ c. out (halves c below).0)))
          (λ i nodes1 ((ext1, ha), ca).
            Run.bind _
              (Run.mono (build-Ends fuel nodes1 (m + 1) r (omega arith) (omega arith) (omega arith))
                (λ i s h. h)
                (λ e s ((is, ext), out).
                  ((is, Extends-trans ext1 ext), λ c. out (halves c below).1)))
              (λ j nodes2 ((ext2, hb), cb).
                let ext = Extends-trans ext1 ext2 in
                Run.mono (join_step f below (Holds-Extends ext2 ha) hb ca cb)
                  (λ k s ((x, h), c). ((Extends-trans ext x, h), c))
                  (λ e s ((is, x), out). ((is, Extends-trans ext x), out)))))
  ]
