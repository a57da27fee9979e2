-- ===== src/PointOnly/Count.antt =====
-- The number of nodes that an update of PointOnlyPersistentSegmentTree appends, which is
-- intersectingNodes of include/valseg/frontier.hpp.
use version_aware_lazy_segtr.Prelude.{
  ℕ, zero, suc, ◌+◌, ◌-◌, ◌*◌, ◌≤◌, ◌<◌, ◌≡◌, refl, inl, inr, true, false, Bool, arith, ◌==◌, leb,
  ltb, if◌then◌else◌, Bool-cases, eq_of_==, ne_of_==, get_elem?, covers,
}
use version_aware_lazy_segtr.Prelude.Int.{ℤ, pos}
use version_aware_lazy_segtr.Prelude.Result.{or_fault, Result-cases}
use version_aware_lazy_segtr.Prelude.Run
use version_aware_lazy_segtr.Prelude.Run.{Action, pure, Run, Ends, returns, raises}
use version_aware_lazy_segtr.Policy.{checked_add, eq_ℤ}
use version_aware_lazy_segtr.Size.{midpoint, size_max}
use version_aware_lazy_segtr.Arena.{no_node}
use version_aware_lazy_segtr.Tagless.{Arena, node, TaglessTree, node_count}
use version_aware_lazy_segtr.Prelude.Result
use version_aware_lazy_segtr.Prelude.Result.{ok, Gives-cases}
use version_aware_lazy_segtr.Size.Exact.{inclusive_length-Gives, checked_size_add-exact}
use version_aware_lazy_segtr.PointOnly.{point_only_update, range_add}
use version_aware_lazy_segtr.Frontier.{intersecting_nodes, frontier_counts}
use version_aware_lazy_segtr.Frontier.Count.{
  partials, decompositions, misses, count_at-misses, count_at-covers, count_at-splits,
  decompositions-overlap,
}
use version_aware_lazy_segtr.Frontier.Run.{
  frontier_counts-counts, frontier_counts-valid, partials_small,
}
use version_aware_lazy_segtr.Tagless.Growth.{Appends, append_one, join_one, range_add-Appended}

module _ (ql qr : ℕ) where
  -- The elements that the range shares with a segment.
  abbrev overlap : ℕ → ℕ → ℕ
  overlap l r = (if ltb r qr then r else qr) + 1 - (if ltb l ql then ql else l)

  -- The nodes below a segment that meet the range.
  abbrev meeting : ℕ → ℕ → ℕ
  meeting l r = partials ql qr l r + (2 * overlap l r - decompositions ql qr l r)

  meeting-misses : (l r : ℕ) → misses ql qr l r ≡ true → meeting l r ≡ 0
  meeting-misses l r out =
      let ps = count_at-misses 0 1 ql qr l r out in
      let none : overlap l r ≡ 0 = ground arith in omega arith

  meeting-leaf : (l r : ℕ) → l ≡ r → misses ql qr l r ≡ false → meeting l r ≡ 1
  meeting-leaf l r e met =
      let ps = count_at-covers 0 1 ql qr l r met (ground arith) in
      let ds = count_at-covers 1 0 ql qr l r met (ground arith) in
      let all : overlap l r ≡ 1 = ground arith in omega arith

  overlap-splits : (l r m : ℕ) → (l ≤ m) × (m < r) → overlap l r ≡ overlap l m + overlap (m + 1) r
  overlap-splits l r m between = ground arith

  meeting-splits :
      (l r : ℕ)
      → l < r
      → misses ql qr l r ≡ false
      → meeting l r ≡ 1 + meeting l (midpoint l r) + meeting (midpoint l r + 1) r
  meeting-splits l r lt met =
      let m = midpoint l r in
      let shared = overlap-splits l r m (omega arith, omega arith) in
      let few_left = decompositions-overlap ql qr l m (omega arith) in
      let few_right = decompositions-overlap ql qr (m + 1) r (omega arith) in
      elim (Bool-cases (covers ql qr l r)) [
        | inl full ↦
            let ps = count_at-covers 0 1 ql qr l r met full in
            let ds = count_at-covers 1 0 ql qr l r met full in
            let ps1 = count_at-covers 0 1 ql qr l m (ground arith) (ground arith) in
            let ds1 = count_at-covers 1 0 ql qr l m (ground arith) (ground arith) in
            let ps2 = count_at-covers 0 1 ql qr (m + 1) r (ground arith) (ground arith) in
            let ds2 = count_at-covers 1 0 ql qr (m + 1) r (ground arith) (ground arith) in
            omega arith
        | inr partial ↦
            let ps = count_at-splits 0 1 ql qr l r (omega arith) met partial in
            let ds = count_at-splits 1 0 ql qr l r (omega arith) met partial in omega arith
      ]

visited-Appends :
    (visit : Bool) (k c : ℕ) (go : Action Arena ℕ)
    → (visit ≡ true → (s : Arena) → Appends s k (go s))
    → (visit ≡ false → k ≡ 0)
    → (s : Arena) → Appends s k ((if visit then go else pure c) s)
visited-Appends true k c go h none_new s = h refl s
visited-Appends false k c go h none_new s = let zero_new = none_new refl in returns (omega arith)

module _ (ql qr : ℕ) (v : ℤ) where
  point_only_update_count :
      (fuel i l r : ℕ) (nodes : Arena)
      → l ≤ r
      → misses ql qr l r ≡ false
      → Appends nodes (meeting ql qr l r) (point_only_update fuel i l r ql qr v nodes)
  unfolding point_only_update
  point_only_update_count zero i l r nodes le met = raises tt
  point_only_update_count (suc fuel) i l r nodes le met = elim (Bool-cases (l == r)) [
    | inl same ↦
        let one = meeting-leaf ql qr l r (eq_of_== l r same) met in
        Run.calculates (or_fault (get_elem? nodes i)) _ nodes
          (λ n.
            rw (same, one)
              (Run.calculates (checked_add n.sum v) _ nodes
                (λ s. append_one (node no_node no_node s) nodes) (λ e. tt)))
          (λ e. tt)
    | inr more ↦
        let below : l < r = ground (arith, ne_of_== l r more) in
        let m = midpoint l r in
        let split = meeting-splits ql qr l r below met in
        Run.calculates (or_fault (get_elem? nodes i)) _ nodes
          (λ n. rw more (
            Run.bind _
              (visited-Appends (leb ql m) (meeting ql qr l m) n.left_child
                (point_only_update fuel n.left_child l m ql qr v)
                (λ go s.
                  point_only_update_count fuel n.left_child l m s (omega arith) (ground arith))
                (λ off. meeting-misses ql qr l m (ground arith)) nodes)
              λ a nodes1 h1.
                Run.bind _
                  (visited-Appends (ltb m qr) (meeting ql qr (m + 1) r) n.right_child
                    (point_only_update fuel n.right_child (m + 1) r ql qr v)
                    (λ go s.
                      point_only_update_count fuel n.right_child (m + 1) r s (omega arith)
                        (ground arith))
                    (λ off. meeting-misses ql qr (m + 1) r (ground arith)) nodes1)
                  λ b nodes2 h2.
                    Run.mono (join_one a b nodes2) (λ j s h. omega arith) (λ e s u. u)))
          (λ e. tt)
  ]

-- What intersectingNodes returns, if it returns.
intersecting_nodes-meeting :
    (n left right k : ℕ)
    → n ≤ size_max
    → intersecting_nodes n left right ≡ ok k
    → k ≡ meeting left right 0 (n - 1)
unfolding intersecting_nodes
intersecting_nodes-meeting n left right k small h =
    elim (Result-cases (frontier_counts n left right)) [
      | inr (e, bad) ↦ let thrown = rw bad at h in cc
      | inl (c, counted) ↦
          let (ordered, inside) = frontier_counts-valid n left right c counted in
          let counts = frontier_counts-counts n left right ordered inside small in
          let few = decompositions-overlap left right 0 (n - 1) (omega arith) in
          let ps = partials left right 0 (n - 1) in
          let ds = decompositions left right 0 (n - 1) in
          let shared : overlap left right 0 (n - 1) ≡ right + 1 - left = ground arith in
          elim (Gives-cases (inclusive_length-Gives left right ordered)) [
            | inr (e, bad, _) ↦ let thrown = rw (counts, bad) at h in cc
            | inl (leaves, run, e) ↦
                elim (Gives-cases (checked_size_add-exact leaves (leaves - ds) (omega arith))) [
                  | inr (e', bad, _) ↦ let thrown = rw (counts, run, bad) at h in cc
                  | inl (trees, run', (e', fits)) ↦
                      elim (Gives-cases (
                        checked_size_add-exact ps trees
                          (partials_small n left right (omega arith) small))) [
                            | inr (e'', bad, _) ↦
                                let thrown = rw (counts, run, run', bad) at h in cc
                            | inl (total, run'', (e'', _)) ↦
                                let same =
                                  Result.ok_injective (rw (counts, run, run', run'') at h) in
                                omega arith
                          ]
                ]
          ]
    ]

-- If intersectingNodes returns k for a range of the tree, whose size std::size_t holds, then
-- rangeAdd of the point-only tree on it with a nonzero value, if it returns, has appended exactly
-- k nodes.
pub point_only_node_count :
    (tree : TaglessTree) (left right k : ℕ) (v : ℤ)
    → tree.array_size ≤ size_max
    → intersecting_nodes tree.array_size left right ≡ ok k
    → eq_ℤ v (pos 0) ≡ false
    → Ends
        (λ version tree'. node_count tree' ≡ node_count tree + k)
        (λ e tree'. Unit {0})
        (range_add left right v tree)
point_only_node_count tree left right k v small counted nonzero =
    let n = tree.array_size in
    let same = intersecting_nodes-meeting n left right k small counted in
    range_add-Appended point_only_update tree left right v k
      (λ ordered inside root. rw same (
        point_only_update_count left right v n root 0 (n - 1) tree.nodes (omega arith)
          (ground arith)))
      nonzero
