-- ===== src/Checkpointing/Update.antt =====
-- The recursion of update in src/checkpointing_segment_tree.cpp.
use mathlib.Core.Path.{subst}
use version_aware_lazy_segtr.Prelude.{
  ℕ, zero, suc, ◌+◌, ◌-◌, ◌≤◌, ◌<◌, ◌≡◌, ◌∙◌, inl, true, false, ◌||◌, Bool, refl, Option, some,
  set_twice, List, arith, leb, ltb, covers, covers→le, leb→lt, ltb→le, set, get_elem?,
  get_elem?-set_self,
}
use version_aware_lazy_segtr.Prelude.Int.{ℤ, ◌+ℤ◌, int_laws}
use version_aware_lazy_segtr.Prelude.Result.{ok}
use version_aware_lazy_segtr.Prelude.Run
use version_aware_lazy_segtr.Prelude.Run.{Run, Ends, returns, lift, reads, ◌>>=◌}
use version_aware_lazy_segtr.Policy.{checked_add}
use version_aware_lazy_segtr.Policy.Arithmetic.{Exact}
use version_aware_lazy_segtr.Policy.SumAdd.{apply}
use version_aware_lazy_segtr.Size.{midpoint, inclusive_length}
use version_aware_lazy_segtr.Segment.{Values, seg_sum, add_range, plus}
use version_aware_lazy_segtr.Segment.Sum.{
  Agree, Agree-sym, add_range-plus, Agree-add_range_left, Agree-add_range_right,
}
use version_aware_lazy_segtr.Checkpointing.Nodes.{Node, node, node_at, store, update}
use version_aware_lazy_segtr.Checkpointing.Holds.{
  IsExact, Holds, leaf, inner, root_node, right_index, Holds-Kept, Holds-congr, Frame, Frame-refl,
  Frame-trans, Frame-left, Frame-right, Frame-store, right_apart, left_apart, store_apart_left,
  store_apart_right, store-done,
}
use version_aware_lazy_segtr.Checkpointing.Fits.{Fits, covered, partial, Fits-Kept}

-- A run that returns, with f standing in the subtree and nothing else touched.
abbrev pub Lands : ℕ → Values → ℕ → ℕ → List Node → Run (List Node) (Unit {0}) → Type 0
Lands i f l r nodes run =
    Ends (λ u nodes'. Frame i l r nodes nodes' × Holds nodes' i f l r) (λ e nodes'. ⊥) run

same_node : {m n : Node} {o : Option Node} → o ≡ some m → o ≡ some n → m ≡ n
same_node p q = cc

missed_below : (ql qr l r : ℕ) → r < ql → (ltb r ql || ltb qr l) ≡ true
missed_below ql qr l r h = ground arith

missed_above : (ql qr l r : ℕ) → qr < l → (ltb r ql || ltb qr l) ≡ true
missed_above ql qr l r h = ground arith

module _ (v : ℤ) (ql qr : ℕ) where
  -- What a covered node becomes: its sum and its tag take the action.
  covered-Holds :
      (nodes : List Node) {i l r : ℕ} {f : Values} (n : Node) (s t : ℤ)
      → Holds nodes i f l r
      → get_elem? nodes i ≡ some n
      → ql ≤ l
      → r ≤ qr
      → t ≡ n.lazy +ℤ v
      → IsExact (node s t) (add_range f ql qr v) l r
      → Holds (set nodes i (node s t)) i (add_range f ql qr v) l r
  covered-Holds nodes n s t (leaf {i} at' e x) at p q et exact =
      leaf (get_elem?-set_self nodes i (node s t) n at) e exact
  covered-Holds nodes n s t (inner {i} {l} {r} {f} {g} {n = n'} at' lt a b same x) at p q et exact =
      let e : n' ≡ n = same_node at' at in
      inner (get_elem?-set_self nodes i (node s t) n at) lt
        (Holds-Kept (store_apart_left i l r (node s t) nodes) a)
        (Holds-Kept (store_apart_right i l r (node s t) nodes) b)
        (λ k c d.
          covered_value k (omega arith) (omega arith)
            (subst (λ (m : Node). f k ≡ g k +ℤ m.lazy) e (same k c d)))
        exact
    where
      covered_value :
          (k : ℕ) → ql ≤ k → k ≤ qr → f k ≡ g k +ℤ n.lazy → add_range f ql qr v k ≡ g k +ℤ t
      covered_value k c d h =
          let on : covers ql qr k k ≡ true = ground arith in rw (on, h, et) (omega int_laws)

  -- A child: the range meets it, or its values do not change.
  child-Lands :
      (fuel : ℕ) {nodes : List Node} {c l r : ℕ} {f g : Values} (visit : Bool)
      → 0 < fuel
      → Holds nodes c f l r
      → (visit ≡ true → Lands c g l r nodes (update fuel c l r ql qr v nodes))
      → (visit ≡ false → ((ltb r ql || ltb qr l) ≡ true) × Agree f g l r)
      → Lands c g l r nodes (update fuel c l r ql qr v nodes)
  unfolding update
  child-Lands fuel true some_fuel h step skip = step refl
  child-Lands zero false some_fuel h step skip = absurd (omega arith)
  child-Lands (suc fuel) {nodes} {c} {l} {r} false some_fuel h step skip =
      let (off, same) = skip refl in rw off (returns (Frame-refl c l r nodes, Holds-congr h same))

  -- The end of a partial descent, after both children.
  finish :
      {nodes nodes2 : List Node} {i l r : ℕ} {f : Values} (g : Values) (n : Node) {c s : ℤ}
      → l < r
      → Frame i l r nodes nodes2
      → get_elem? nodes2 i ≡ some n
      → IsExact n f l r
      → Holds nodes2 (i + 1) (add_range g ql qr v) l (midpoint l r)
      → Holds nodes2 (right_index i l r) (add_range g ql qr v) (midpoint l r + 1) r
      → Agree f (plus g n.lazy) l r
      → inclusive_length l r ≡ ok (r + 1 - l)
      → checked_add
          (seg_sum (add_range g ql qr v) l (midpoint l r))
          (seg_sum (add_range g ql qr v) (midpoint l r + 1) r)
        ≡ ok c
      → apply n.lazy c (r + 1 - l) ≡ ok s
      → Exact (seg_sum (add_range f ql qr v) l r) s
      → Lands i (add_range f ql qr v) l r nodes (
          (do
            left ← reads (λ nodes. node_at nodes (i + 1))
            right ← reads (λ nodes. node_at nodes (right_index i l r))
            parent ← reads (λ nodes. node_at nodes i)
            children ← lift (checked_add left.sum right.sum)
            length ← lift (inclusive_length l r)
            sum ← lift (apply parent.lazy children length)
            store i (node sum parent.lazy))
            nodes2)
  finish {nodes} {nodes2} {i} {l} {r} {f} g n {c} {s} below frame at x a b same len sums run
        (es, hs) =
      let (na, at_a, xa) = root_node a in
      let (nb, at_b, xb) = root_node b in
      let sums' : checked_add na.sum nb.sum ≡ ok c = rw (xa.sum_exact, xb.sum_exact) sums in
      let new = node s n.lazy in
      rw (at_a, at_b, at, sums', len, run, store-done i new n nodes2 at)
        (returns (
          Frame-trans frame (Frame-store i l r new nodes2 (omega arith)),
          inner (get_elem?-set_self nodes2 i new n at) below
              (Holds-Kept (store_apart_left i l r new nodes2) a)
              (Holds-Kept (store_apart_right i l r new nodes2) b)
              (add_range-plus f g n.lazy v ql qr l r same)
              (record { sum_exact = es; sum_long = rw es hs; lazy_long = x.lazy_long }),
        ))

  -- On a node for which the preflight succeeded, the update returns, and the action is added to each
  -- element of the range.
  pub update-Lands :
      (fuel : ℕ) {nodes : List Node} {i l r : ℕ} {f : Values}
      → Fits ql qr v nodes i f l r
      → r - l < fuel
      → Lands i (add_range f ql qr v) l r nodes (update fuel i l r ql qr v nodes)
  unfolding update
  update-Lands zero fits enough = absurd (omega arith)
  update-Lands (suc fuel) {nodes}
        (covered {i} {l} {r} {n} {s' = s} {t' = t} meets len full le h at x run
          (es, hs)
          run_tag
          (et, ht))
        enough =
      let (p, q) = covers→le ql qr l r full in
      let first = node s n.lazy in
      let once = get_elem?-set_self nodes i first n at in
      rw
        (
          meets,
          at,
          full,
          len,
          run,
          store-done i first n nodes at,
          run_tag,
          store-done i (node s t) first (set nodes i first) once,
          set_twice nodes i first (node s t),
        )
        (returns (
          Frame-store i l r (node s t) nodes (omega arith),
          covered-Holds nodes n s t h at p q et
              (record { sum_exact = es; sum_long = rw es hs; lazy_long = rw et ht }),
        ))
  update-Lands (suc fuel) {nodes}
        (partial {i} {l} {r} {f} {g} {n} meets len off below right at x same a b fa fb sums run
          exact)
        enough =
      let m = midpoint l r in
      let j = right_index i l r in
      let g' = add_range g ql qr v in
      rw (meets, at, off, right)
        (Run.bind _
          (child-Lands fuel (leb ql m) (omega arith) a
            (λ go. update-Lands fuel (fa go) (omega arith))
            (λ skip.
              let later = leb→lt ql m skip in
              (missed_below ql qr l m later, Agree-sym (Agree-add_range_left g ql qr v l m later))))
          (λ u nodes1 (frame1, left1).
            let apart = right_apart i l r below frame1 in
            Run.bind _
              (child-Lands fuel (ltb m qr) (omega arith) (Holds-Kept apart b)
                (λ go. update-Lands fuel (Fits-Kept ql qr v apart (fb go)) (omega arith))
                (λ skip.
                  let after = ltb→le m qr skip in
                  (
                    missed_above ql qr (m + 1) r (omega arith),
                    Agree-sym (Agree-add_range_right g ql qr v (m + 1) r (omega arith)),
                  )))
              (λ u nodes2 (frame2, right2).
                finish g n below (Frame-trans (Frame-left below frame1) (Frame-right below frame2))
                  (frame2.outside i (inl (omega arith)) ∙ frame1.outside i (inl (omega arith)) ∙ at)
                  x (Holds-Kept (left_apart i l r below frame2) left1) right2 same len sums run
                  exact)))
