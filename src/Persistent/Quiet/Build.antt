-- ===== src/Persistent/Quiet/Build.antt =====
-- initialize of the persistent tree over a small vector: it returns, with tags of 0.
use version_aware_lazy_segtr.Prelude.{
  ℕ, zero, suc, ◌+◌, ◌-◌, ◌*◌, ◌≤◌, ◌<◌, ◌≡◌, refl, sym, inl, inr, List, [], ◌∷◌, arith, ◌==◌,
  false, Bool-cases, eq_of_==, ne_of_==, length, get_elem?-get_or,
}
use version_aware_lazy_segtr.Prelude.Int.{+ℤ-zero, ℤ, pos, ◌+ℤ◌}
use version_aware_lazy_segtr.Prelude.Run
use version_aware_lazy_segtr.Prelude.Run.{Action, Run, Ends, returns, raises, pure, lift, ◌>>=◌}
use version_aware_lazy_segtr.Policy.{long_max, checked_add}
use version_aware_lazy_segtr.Size.{midpoint}
use version_aware_lazy_segtr.Size.Exact.{canonical_node_count-ok}
use version_aware_lazy_segtr.Segment.{Values, of_list}
use version_aware_lazy_segtr.Segment.Sum.{seg_sum-single, seg_sum-split}
use version_aware_lazy_segtr.Domain.{magnitude}
use version_aware_lazy_segtr.Domain.Envelope.{WithinBound, max_magnitude_bounds}
use version_aware_lazy_segtr.Arena.{no_node, Extends, Extends-trans, read, append, append-Ends}
use version_aware_lazy_segtr.Persistent.{
  node, Arena, PersistentLazySegmentTree, build, build_replacement, install, initialize,
}
use version_aware_lazy_segtr.Persistent.Quiet.{checked_add-small}
use version_aware_lazy_segtr.Persistent.Quiet.Calm.{
  Calm, leaf, inner, top, seg_sum-small, Calm-mono, part_small,
}
use version_aware_lazy_segtr.Persistent.Quiet.Update.{Returns}
use version_aware_lazy_segtr.Persistent.Quiet.Step.{IsQuiet}

module _ (values : List ℤ) (w : ℕ) (bounded : WithinBound (of_list values) (length values) w)
    (room : length values * w ≤ long_max) where
  abbrev f : Values
  f = of_list values

  -- A new node over the vector.
  abbrev Fresh : Arena → ℕ → ℕ → ℕ → Arena → Type 0
  Fresh nodes l r i nodes' = Extends nodes nodes' × Calm nodes' w 0 i f l r

  new_leaf-Fresh :
      (nodes : Arena) (l r : ℕ)
      → l ≡ r
      → r < length values
      → Returns (Fresh nodes l r) (append (node no_node no_node (f l) (pos 0)) nodes)
  new_leaf-Fresh nodes l r e lt =
      Run.mono (append-Ends (node no_node no_node (f l) (pos 0)) nodes)
        (λ j nodes' (ext, at). (
          ext,
          leaf at e (record {
            exact = sym (rw (← e) (seg_sum-single f l));
            values_small = λ k p q. bounded k (omega arith);
            tag_small = omega arith;
          }),
        ))
        (λ e s none_such. none_such)

  new_inner-Fresh :
      {nodes : Arena} {a c l r : ℕ}
      → l < r
      → r < length values
      → Calm nodes w 0 a f l (midpoint l r)
      → Calm nodes w 0 c f (midpoint l r + 1) r
      → Returns (Fresh nodes l r) (
          (do
            left ← read a
            right ← read c
            sum ← lift (checked_add left.sum right.sum)
            append (node a c sum (pos 0)))
            nodes)
  new_inner-Fresh {nodes} {a} {c} {l} {r} lt inside ha hc =
      let m = midpoint l r in
      let (x, at_a, small_a) = top ha in
      let (y, at_c, small_c) = top hc in
      let split = seg_sum-split f l m r (omega arith) (omega arith) in
      let space = part_small (length values) w l r inside room in
      let on_left : magnitude x.sum ≤ (m + 1 - l) * w =
        rw small_a.exact (seg_sum-small f w l m small_a.values_small) in
      let on_right : magnitude y.sum ≤ (r + 1 - (m + 1)) * w =
        rw small_c.exact (seg_sum-small f w (m + 1) r small_c.values_small) in
      let lengths : (m + 1 - l) + (r + 1 - (m + 1)) ≡ r + 1 - l = omega arith in
      let both : (m + 1 - l) * w + (r + 1 - (m + 1)) * w ≡ (r + 1 - l) * w =
        rw (← lengths) (omega arith) in
      let fits = checked_add-small x.sum y.sum (omega arith) in
      rw (at_a, at_c, fits)
        (Run.mono (append-Ends (node a c (x.sum +ℤ y.sum) (pos 0)) nodes)
          (λ j nodes' (ext, new). (
            ext,
            inner new lt (Calm-mono ext (omega arith) (omega arith) ha)
                (Calm-mono ext (omega arith) (omega arith) hc) (λ k p q. sym (+ℤ-zero (f k)))
                (record {
                  exact = rw (split, small_a.exact, small_c.exact) refl;
                  values_small = λ k p q. bounded k (omega arith);
                  tag_small = omega arith;
                }),
          ))
          (λ e s none_such. none_such))

  build-returns :
      (fuel : ℕ) (nodes : Arena) (l r : ℕ)
      → l ≤ r
      → r < length values
      → r - l < fuel
      → Returns (Fresh nodes l r) (build fuel values l r nodes)
  unfolding build
  build-returns zero nodes l r le lt enough = absurd (omega arith)
  build-returns (suc fuel) nodes l r le lt enough = elim (Bool-cases (l == r)) [
    | inl same ↦
        rw (same, get_elem?-get_or values l (pos 0) (omega arith))
          (new_leaf-Fresh nodes l r (eq_of_== l r same) lt)
    | inr more ↦ rw more (
        let m = midpoint l r in
        let below : l < r = ground (arith, ne_of_== l r more) in
        Run.bind _ (build-returns fuel nodes l m (omega arith) (omega arith) (omega arith))
          (λ i nodes1 (ext1, left).
            Run.bind _ (build-returns fuel nodes1 (m + 1) r (omega arith) lt (omega arith))
              (λ j nodes2 (ext2, right).
                Run.mono
                  (new_inner-Fresh below lt (Calm-mono ext2 (omega arith) (omega arith) left) right)
                  (λ k s (ext3, h). (Extends-trans ext1 (Extends-trans ext2 ext3), h))
                  (λ e s none_such. none_such))))
  ]

  -- The tree of version 0 alone.
  abbrev pub Started : Unit {0} → PersistentLazySegmentTree → Type 0
  Started _ tree' =
      IsQuiet w 0 tree' × (tree'.array_size ≡ length values) × (length tree'.roots ≡ 1)

  module _ (some_element : 0 < length values) (sized : length values ≤ long_max) where
    install-returns :
        (tree : PersistentLazySegmentTree) {run : Run Arena (List ℕ)}
        → Returns
            (λ roots nodes.
              (root : ℕ) × (roots ≡ root ∷ []) × Calm nodes w 0 root f 0 (length values - 1))
            run
        → Returns Started (install values tree run)
    unfolding install
    install-returns tree (returns {s = nodes} (root, e, h)) = rw e (
        returns (
          record {
            values = f;
            root = root;
            some_element = some_element;
            sized = sized;
            root_there = refl;
            calm = h;
            bounded = max_magnitude_bounds values;
          },
          refl,
          refl,
        ))
    install-returns tree (raises none_such) = absurd none_such

    pub initialize-returns :
        (tree : PersistentLazySegmentTree) → Returns Started (initialize values tree)
    unfolding initialize build_replacement
    initialize-returns tree =
        let more : (length values == 0) ≡ false = ground arith in
        rw (more, canonical_node_count-ok (length values) sized)
          (install-returns tree (
            Run.bind _
              (build-returns (length values) [] 0 (length values - 1) (omega arith) (omega arith)
                (omega arith))
              (λ root nodes (ext, h). returns (root, refl, h))))
