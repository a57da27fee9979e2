-- ===== src/Checkpointing/Build.antt =====
-- The recursion of build in src/checkpointing_segment_tree.cpp.
use version_aware_lazy_segtr.Prelude.{
  ℕ, zero, suc, ◌+◌, ◌-◌, ◌≤◌, ◌<◌, ◌≡◌, refl, sym, ◌∙◌, inl, inr, List, arith, ◌==◌, Bool-cases,
  eq_of_==, ne_of_==, length, some_entry, get_elem?-get_or, get_elem?-set_self,
}
use version_aware_lazy_segtr.Prelude.Int.{ℤ, pos, ◌+ℤ◌, +ℤ-zero}
use version_aware_lazy_segtr.Prelude.Result.{Error, IsOverflow}
use version_aware_lazy_segtr.Prelude.Run
use version_aware_lazy_segtr.Prelude.Run.{Run, Ends, returns, lift, reads, ◌>>=◌}
use version_aware_lazy_segtr.Policy.{IsLong, checked_add}
use version_aware_lazy_segtr.Policy.Arithmetic.{checked_add-Exact}
use version_aware_lazy_segtr.Size.{midpoint, size_max}
use version_aware_lazy_segtr.Segment.{of_list, AllLong, seg_sum}
use version_aware_lazy_segtr.Segment.Sum.{seg_sum-single, seg_sum-split}
use version_aware_lazy_segtr.Segment.Canonical.{Canonical, halves, total_IsLong}
use version_aware_lazy_segtr.Checkpointing.Nodes.{Node, node, node_at, store, build}
use version_aware_lazy_segtr.Checkpointing.Holds.{
  Holds, leaf, inner, root_node, right_index, past, Holds-Kept, Frame, Frame-trans, Frame-left,
  Frame-right, Frame-store, left_apart, store_apart_left, store_apart_right, store-done,
}
use version_aware_lazy_segtr.Checkpointing.Layout.{right_child-ok}

module _ (values : List ℤ) (all : AllLong values) where
  abbrev pub Built : (i l r : ℕ) → List Node → List Node → Type 0
  Built i l r nodes nodes' =
      Frame i l r nodes nodes'
      × Holds nodes' i (of_list values) l r
      × Canonical (of_list values) l r

  abbrev pub Broken : (l r : ℕ) → Error → Type 0
  Broken l r e = IsOverflow e × (¬ Canonical (of_list values) l r)

  abbrev Builds : (i l r : ℕ) → List Node → Run (List Node) (Unit {0}) → Type 0
  Builds i l r nodes run =
      Ends (λ u nodes'. Built i l r nodes nodes') (λ e nodes'. Broken l r e) run

  leaf-Builds :
      (nodes : List Node) (i l r : ℕ)
      → i < length nodes
      → l ≡ r
      → r < length values
      → Builds i l r nodes (store i (node (of_list values l) (pos 0)) nodes)
  leaf-Builds nodes i l r lt e inside =
      let s = of_list values l in
      let (old, at) = some_entry nodes i lt in
      let single : seg_sum (of_list values) l r ≡ s =
        rw (← e) (seg_sum-single (of_list values) l) in
      let long : IsLong s = all l (omega arith) in
      rw (store-done i (node s (pos 0)) old nodes at) (
        returns (
          Frame-store i l r (node s (pos 0)) nodes (omega arith),
          leaf (get_elem?-set_self nodes i (node s (pos 0)) old at) e
              (record { sum_exact = sym single; sum_long = long; lazy_long = omega arith }),
          Canonical.leaf e (rw single long),
        ))

  -- The sum of two children is stored in their parent.
  join-Builds :
      (nodes : List Node) (i l r : ℕ)
      → i < length nodes
      → l < r
      → Holds nodes (i + 1) (of_list values) l (midpoint l r)
      → Holds nodes (right_index i l r) (of_list values) (midpoint l r + 1) r
      → Canonical (of_list values) l (midpoint l r)
      → Canonical (of_list values) (midpoint l r + 1) r
      → Builds i l r nodes (
          (do
            left ← reads (λ nodes. node_at nodes (i + 1))
            right ← reads (λ nodes. node_at nodes (right_index i l r))
            sum ← lift (checked_add left.sum right.sum)
            store i (node sum (pos 0)))
            nodes)
  join-Builds nodes i l r lt below a b ca cb =
      let f = of_list values in
      let (old, at) = some_entry nodes i lt in
      let (na, at_a, xa) = root_node a in
      let (nb, at_b, xb) = root_node b in
      let whole : na.sum +ℤ nb.sum ≡ seg_sum f l r =
        rw
          (
            seg_sum-split f l (midpoint l r) r (omega arith) (omega arith),
            xa.sum_exact,
            xb.sum_exact,
          )
          refl in
      rw (at_a, at_b)
        (Run.bind_lift _ nodes (checked_add-Exact na.sum nb.sum xa.sum_long xb.sum_long)
          (λ s (es, hs).
            let new = node s (pos 0) in
            rw (store-done i new old nodes at) (
              returns (
                Frame-store i l r new nodes (omega arith),
                inner (get_elem?-set_self nodes i new old at) below
                    (Holds-Kept (store_apart_left i l r new nodes) a)
                    (Holds-Kept (store_apart_right i l r new nodes) b)
                    (λ k p q. sym (+ℤ-zero (f k)))
                    (record {
                      sum_exact = es ∙ whole;
                      sum_long = rw es hs;
                      lazy_long = omega arith;
                    }),
                Canonical.inner below ca cb (rw whole at hs),
              )))
          (λ e (is, out). (is, λ c. out (rw whole (total_IsLong c)))))

  pub build-Builds :
      (fuel : ℕ) (nodes : List Node) (i l r : ℕ)
      → past i l r ≤ length nodes
      → length nodes ≤ size_max
      → l ≤ r
      → r < length values
      → r - l < fuel
      → Builds i l r nodes (build fuel values i l r nodes)
  unfolding build
  build-Builds zero nodes i l r room small le inside enough = absurd (omega arith)
  build-Builds (suc fuel) nodes i l r room small le inside enough = elim (Bool-cases (l == r)) [
    | inl same ↦
        rw (same, get_elem?-get_or values l (pos 0) (omega arith))
          (leaf-Builds nodes i l r (omega arith) (eq_of_== l r same) inside)
    | inr more ↦
        let m = midpoint l r in
        let j = right_index i l r in
        let off = ne_of_== l r more in
        let below : l < r = omega arith in
        rw (more, right_child-ok i l r le (omega arith))
          (Run.bind _
            (Run.mono
              (build-Builds fuel nodes (i + 1) l m (omega arith) small (omega arith) (omega arith)
                (omega arith))
              (λ u s h. h) (λ e s (is, out). (is, λ c. out (halves c below).0)))
            (λ u nodes1 (frame1, ha, ca).
              let size1 = frame1.size_kept in
              Run.bind _
                (Run.mono
                  (build-Builds fuel nodes1 j (m + 1) r (omega arith) (omega arith) (omega arith)
                    (omega arith) (omega arith))
                  (λ u s h. h) (λ e s (is, out). (is, λ c. out (halves c below).1)))
                (λ u nodes2 (frame2, hb, cb).
                  let size2 = frame2.size_kept in
                  Run.mono
                    (join-Builds nodes2 i l r (omega arith) below
                      (Holds-Kept (left_apart i l r below frame2) ha) hb ca cb)
                    (λ u s (frame3, h, c). (
                      Frame-trans (Frame-left below frame1)
                          (Frame-trans (Frame-right below frame2) frame3),
                      h,
                      c,
                    ))
                    (λ e s h. h))))
  ]
