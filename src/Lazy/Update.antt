-- ===== src/Lazy/Update.antt =====
-- The recursion of update in src/lazy_segment_tree.cpp.
use version_aware_lazy_segtr.Prelude.{
  ℕ, zero, suc, ◌+◌, ◌-◌, ◌*◌, ◌≤◌, ◌<◌, ◌≡◌, refl, inl, inr, true, false, Bool, Option, some,
  arith, leb, ltb, covers, covers→le, leb→lt, ltb→le, if◌then◌else◌, set, get_elem?-set_self,
  get_elem?-set_ne,
}
use version_aware_lazy_segtr.Prelude.Int.{ℤ, ◌+ℤ◌, int_laws}
use version_aware_lazy_segtr.Prelude.Result.{ok}
use version_aware_lazy_segtr.Prelude.Run
use version_aware_lazy_segtr.Prelude.Run.{Run, Action, Ends, returns, pure, lift, ◌>>=◌}
use version_aware_lazy_segtr.Policy.{IsLong, checked_add}
use version_aware_lazy_segtr.Policy.Arithmetic.{Exact}
use version_aware_lazy_segtr.Policy.SumAdd.{apply}
use version_aware_lazy_segtr.Size.{midpoint}
use version_aware_lazy_segtr.Segment.{Values, seg_sum, add_range, plus}
use version_aware_lazy_segtr.Segment.Sum.{
  Agree, Agree-sym, add_range-plus, Agree-add_range_left, Agree-add_range_right,
}
use version_aware_lazy_segtr.Lazy.{LazySegmentTree, update, sum_at, tag_at, store_sum}
use version_aware_lazy_segtr.Lazy.Holds.{
  Entry, Holds, leaf, inner, entry, KeptAt, Holds-kept, Holds-congr, Entry-kept,
}
use version_aware_lazy_segtr.Lazy.Fits.{Fits, covered, partial, Fits-kept}
use version_aware_lazy_segtr.Lazy.Frame.{
  Frame, Frame-refl, Frame-trans, Frame-child, Frame-sum, Frame-tag, right_apart, left_apart,
  parent_kept, assigned-ok, child_untouched,
}

-- A run that returns, with f standing in the subtree and nothing else touched.
abbrev pub Lands : ℕ → Values → ℕ → ℕ → LazySegmentTree → Run LazySegmentTree (Unit {0}) → Type 0
Lands node f l r tree run =
    Ends (λ u tree'. Frame node tree tree' × Holds tree' node f l r) (λ e tree'. ⊥) run

module _ (v : ℤ) (ql qr : ℕ) where
  -- The state after both writes at a covered node.
  abbrev written : LazySegmentTree → ℕ → (sum tag : ℤ) → LazySegmentTree
  written tree node sum tag = record tree {
    tree = set tree.tree node sum;
    lazy = set tree.lazy node tag;
  }

  covered-Entry :
      (tree : LazySegmentTree) {node l r : ℕ} {f : Values} {s t s' t' : ℤ}
      → Entry tree node s t f l r
      → Exact (seg_sum (add_range f ql qr v) l r) s'
      → IsLong t'
      → Entry (written tree node s' t') node s' t' (add_range f ql qr v) l r
  covered-Entry tree {node} {s} {t} {s'} {t'} e (es, hs) ht = record {
    sum_there = get_elem?-set_self tree.tree node s' s e.sum_there;
    tag_there = get_elem?-set_self tree.lazy node t' t e.tag_there;
    sum_exact = es;
    sum_long = rw es hs;
    tag_long = ht;
  }

  covered_Holds :
      (tree : LazySegmentTree) {node l r : ℕ} {f : Values} {s t s' t' : ℤ}
      → Holds tree node f l r
      → Entry tree node s t f l r
      → ql ≤ l
      → r ≤ qr
      → Exact (seg_sum (add_range f ql qr v) l r) s'
      → Exact (t +ℤ v) t'
      → Holds (written tree node s' t') node (add_range f ql qr v) l r
  covered_Holds tree (leaf same x) e p q exact (et, ht) =
      leaf same (covered-Entry tree e exact (rw et ht))
  covered_Holds tree {t} {s'} {t'} (inner {node} {l} {r} {f} {g} {t = t0} lt x a b same) e p q exact
        (et, ht) =
      let tree' = written tree node s' t' in
      let kept : (k : ℕ) → (k ≡ node → ⊥) → KeptAt tree tree' k = λ k off.
        (get_elem?-set_ne tree.tree node k s' off, get_elem?-set_ne tree.lazy node k t' off) in
      let same_tag : t0 ≡ t = one_tag x.tag_there e.tag_there in
      inner lt (covered-Entry tree e exact (rw et ht))
        (Holds-kept tree tree' (child_untouched node (2 * node + 1) tree tree' (inl refl) kept) a)
        (Holds-kept tree tree' (child_untouched node (2 * node + 2) tree tree' (inr refl) kept) b)
        (λ k c d. covered_value k (omega arith) (omega arith) (rw same_tag at (same k c d)))
    where
      one_tag : {a b : ℤ} {o : Option ℤ} → o ≡ some a → o ≡ some b → a ≡ b
      one_tag x y = cc

      covered_value : (k : ℕ) → ql ≤ k → k ≤ qr → f k ≡ g k +ℤ t → add_range f ql qr v k ≡ g k +ℤ t'
      covered_value k c d h =
          let on : covers ql qr k k ≡ true = ground arith in rw (on, h, et) (omega int_laws)

  -- One child: visited, or left alone because its values do not change.
  child-Lands :
      {tree : LazySegmentTree} {c l r : ℕ} {f g : Values} (visit : Bool)
      (go : Action LazySegmentTree (Unit {0}))
      → Holds tree c f l r
      → (visit ≡ true → Lands c g l r tree (go tree))
      → (visit ≡ false → Agree f g l r)
      → Lands c g l r tree ((if visit then go else pure tt) tree)
  child-Lands true go h step same = step refl
  child-Lands {tree} {c} false go h step same =
      returns (Frame-refl c tree, Holds-congr h (same refl))

  -- The end of a partial descent, after both children.
  parent_Holds :
      (tree : LazySegmentTree) {node l r : ℕ} {f : Values} (g : Values) {s t s' : ℤ}
      → l < r
      → Entry tree node s t f l r
      → Holds tree (2 * node + 1) (add_range g ql qr v) l (midpoint l r)
      → Holds tree (2 * node + 2) (add_range g ql qr v) (midpoint l r + 1) r
      → Agree f (plus g t) l r
      → Exact (seg_sum (add_range f ql qr v) l r) s'
      → Holds (record tree { tree = set tree.tree node s' }) node (add_range f ql qr v) l r
  parent_Holds tree {node} {l} {r} {f} g {s} {t} {s'} lt e a b same (es, hs) =
      let tree' = record tree { tree = set tree.tree node s' } in
      let kept : (k : ℕ) → (k ≡ node → ⊥) → KeptAt tree tree' k =
        λ k off. (get_elem?-set_ne tree.tree node k s' off, refl) in
      inner lt
        (record {
          sum_there = get_elem?-set_self tree.tree node s' s e.sum_there;
          tag_there = e.tag_there;
          sum_exact = es;
          sum_long = rw es hs;
          tag_long = e.tag_long;
        })
        (Holds-kept tree tree' (child_untouched node (2 * node + 1) tree tree' (inl refl) kept) a)
        (Holds-kept tree tree' (child_untouched node (2 * node + 2) tree tree' (inr refl) kept) b)
        (add_range-plus f g t v ql qr l r same)

  finish :
      {tree tree2 : LazySegmentTree} {node l r : ℕ} {f : Values} (g : Values) {s t c s' : ℤ}
      → l < r
      → Frame node tree tree2
      → Entry tree2 node s t f l r
      → Holds tree2 (2 * node + 1) (add_range g ql qr v) l (midpoint l r)
      → Holds tree2 (2 * node + 2) (add_range g ql qr v) (midpoint l r + 1) r
      → Agree f (plus g t) l r
      → checked_add
          (seg_sum (add_range g ql qr v) l (midpoint l r))
          (seg_sum (add_range g ql qr v) (midpoint l r + 1) r)
        ≡ ok c
      → apply t c (r + 1 - l) ≡ ok s'
      → Exact (seg_sum (add_range f ql qr v) l r) s'
      → Lands node (add_range f ql qr v) l r tree (
          (do
            tag ← tag_at node
            left ← sum_at (2 * node + 1)
            right ← sum_at (2 * node + 2)
            children ← lift (checked_add left right)
            sum ← lift (apply tag children (r + 1 - l))
            store_sum node sum)
            tree2)
  finish {tree} {tree2} {node} g {s} {c} {s'} below frame e a b same sums run exact =
      let (x, _, ex) = entry a in
      let (y, _, ey) = entry b in
      let sums' : checked_add x y ≡ ok c = rw (ex.sum_exact, ey.sum_exact) sums in
      rw
        (
          e.tag_there,
          ex.sum_there,
          ey.sum_there,
          sums',
          run,
          assigned-ok tree2.tree node s' s e.sum_there,
        )
        (returns (
          Frame-trans frame (Frame-sum node s' tree2),
          parent_Holds tree2 g below e a b same exact,
        ))

  pub update-Lands :
      (fuel : ℕ) {tree : LazySegmentTree} {node l r : ℕ} {f : Values}
      → Fits ql qr v tree node f l r
      → r - l < fuel
      → Lands node (add_range f ql qr v) l r tree (update fuel node l r ql qr v tree)
  unfolding update
  update-Lands zero fits enough = absurd (omega arith)
  update-Lands (suc fuel) {tree}
        (covered {node} {l} {r} {s} {t} {s'} {t'} len full h e run exact run_tag exact_tag) enough =
      let (p, q) = covers→le ql qr l r full in
      rw
        (
          len,
          full,
          e.sum_there,
          run,
          assigned-ok tree.tree node s' s e.sum_there,
          e.tag_there,
          run_tag,
          assigned-ok tree.lazy node t' t e.tag_there,
        )
        (returns (
          Frame-trans (Frame-sum node s' tree)
              (Frame-tag node t' (record tree { tree = set tree.tree node s' })),
          covered_Holds tree h e p q exact exact_tag,
        ))
  update-Lands (suc fuel) {tree}
        (partial {node} {l} {r} {f} {g} {s} {t} {c} {s'} len off below e same a b fa fb sums run
          exact)
        enough =
      let m = midpoint l r in
      let g' = add_range g ql qr v in
      rw (len, off)
        (Run.bind _
          (child-Lands {g = g'} (leb ql m) (update fuel (2 * node + 1) l m ql qr v) a
            (λ go. update-Lands fuel (fa go) (omega arith))
            (λ skip. Agree-sym (Agree-add_range_left g ql qr v l m (leb→lt ql m skip))))
          (λ u tree1 (frame1, left1).
            let apart = right_apart node frame1 in
            let frame1' = Frame-child (inl refl) frame1 in
            Run.bind _
              (child-Lands {g = g'} (ltb m qr) (update fuel (2 * node + 2) (m + 1) r ql qr v)
                (Holds-kept tree tree1 apart b)
                (λ go. update-Lands fuel (Fits-kept ql qr v tree tree1 apart (fb go)) (omega arith))
                (λ skip.
                  let after = ltb→le m qr skip in
                  Agree-sym (Agree-add_range_right g ql qr v (m + 1) r (omega arith))))
              (λ u tree2 (frame2, right2).
                finish g below (Frame-trans frame1' (Frame-child (inr refl) frame2))
                  (Entry-kept tree1 tree2 (parent_kept node (2 * node + 2) (inr refl) frame2)
                    (Entry-kept tree tree1 (parent_kept node (2 * node + 1) (inl refl) frame1) e))
                  (Holds-kept tree1 tree2 (left_apart node frame2) left1) right2 same sums run
                  exact)))
