-- ===== src/FullCopy/Count.antt =====
-- The number of nodes that an update of FullCopyPersistentSegmentTree appends.
use version_aware_lazy_segtr.Prelude.{
  ℕ, zero, suc, ◌+◌, ◌-◌, ◌*◌, ◌≤◌, ◌<◌, ◌≡◌, inl, inr, false, arith, ◌==◌, Bool-cases, eq_of_==,
  ne_of_==, get_elem?,
}
use version_aware_lazy_segtr.Prelude.Int.{ℤ, pos}
use version_aware_lazy_segtr.Prelude.Result.{or_fault}
use version_aware_lazy_segtr.Prelude.Run
use version_aware_lazy_segtr.Prelude.Run.{Action, pure, Run, Ends, returns, raises}
use version_aware_lazy_segtr.Policy.{eq_ℤ}
use version_aware_lazy_segtr.Size.{midpoint}
use version_aware_lazy_segtr.Arena.{no_node}
use version_aware_lazy_segtr.Tagless.{Arena, node, TaglessTree, node_count}
use version_aware_lazy_segtr.FullCopy.{full_copy_update, leaf_value, range_add}
use version_aware_lazy_segtr.Tagless.Growth.{Appends, append_one, join_one, range_add-Appended}

module _ (ql qr : ℕ) (v : ℤ) where
  full_copy_update_count :
      (fuel i l r : ℕ) (nodes : Arena)
      → l ≤ r
      → Appends nodes (2 * (r + 1 - l) - 1) (full_copy_update fuel i l r ql qr v nodes)
  unfolding full_copy_update
  full_copy_update_count zero i l r nodes le = raises tt
  full_copy_update_count (suc fuel) i l r nodes le = elim (Bool-cases (l == r)) [
    | inl same ↦
        let e : l ≡ r = eq_of_== l r same in
        let one : 2 * (r + 1 - l) - 1 ≡ 1 = omega arith in
        Run.calculates (or_fault (get_elem? nodes i)) _ nodes
          (λ n.
            rw (same, one)
              (Run.calculates (leaf_value l ql qr n.sum v) _ nodes
                (λ s. append_one (node no_node no_node s) nodes) (λ e. tt)))
          (λ e. tt)
    | inr more ↦
        let below : l < r = ground (arith, ne_of_== l r more) in
        let m = midpoint l r in
        Run.calculates (or_fault (get_elem? nodes i)) _ nodes
          (λ n. rw more (
            Run.bind _ (full_copy_update_count fuel n.left_child l m nodes (omega arith))
              λ a nodes1 h1.
                Run.bind _
                  (full_copy_update_count fuel n.right_child (m + 1) r nodes1 (omega arith))
                  λ b nodes2 h2.
                    Run.mono (join_one a b nodes2) (λ j s h. omega arith) (λ e s u. u)))
          (λ e. tt)
  ]

-- rangeAdd of the full-copy tree with a nonzero value, if it returns, has appended exactly 2n - 1
-- nodes for n elements.
full_copy_node_count :
    (tree : TaglessTree) (left right : ℕ) (v : ℤ)
    → eq_ℤ v (pos 0) ≡ false
    → Ends
        (λ version tree'. node_count tree' ≡ node_count tree + (2 * tree.array_size - 1))
        (λ e tree'. Unit {0})
        (range_add left right v tree)
full_copy_node_count tree left right v nonzero =
    let n = tree.array_size in
    range_add-Appended full_copy_update tree left right v (2 * n - 1)
      (λ ordered inside root.
        let whole : n - 1 + 1 - 0 ≡ n = omega arith in
        rw whole at (full_copy_update_count left right v n root 0 (n - 1) tree.nodes (omega arith)))
      nonzero
