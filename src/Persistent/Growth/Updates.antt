-- ===== src/Persistent/Growth/Updates.antt =====
-- rangeAdd and the size of the arena.
use version_aware_lazy_segtr.Prelude.{
  ℕ, zero, suc, refl, sym, ◌∙◌, ◌+◌, ◌-◌, ◌*◌, ◌^◌, ◌≤◌, ◌<◌, ◌≡◌, Bool, true, false, inl, inr,
  arith, Bool-cases, if◌then◌else◌,
}
use version_aware_lazy_segtr.Prelude.Int.{ℤ, pos}
use version_aware_lazy_segtr.Prelude.Result
use version_aware_lazy_segtr.Prelude.Result.{ok, Gives, Result-cases}
use version_aware_lazy_segtr.Prelude.Run
use version_aware_lazy_segtr.Prelude.Run.{
  Action, Run, Ends, returns, raises, pure, lift, reads, ◌>>=◌, and_then,
}
use version_aware_lazy_segtr.Arena.{Extends, Extends-refl, take-Extends}
use version_aware_lazy_segtr.Persistent.Write.{Arena}
use version_aware_lazy_segtr.Policy.{eq_ℤ}
use version_aware_lazy_segtr.Size.{tree_height, size_max}
use version_aware_lazy_segtr.Size.Exact.{tree_height-log2}
use version_aware_lazy_segtr.Domain.{validate_range_add}
use version_aware_lazy_segtr.Persistent.{
  PersistentLazySegmentTree, validate_initialized, validate_range, range_add, try_update,
  finish_update, latest_root, node_count, current_leaves,
}
use version_aware_lazy_segtr.Persistent.Publish.{checks_facts}
use version_aware_lazy_segtr.Persistent.Growth.{Longer, Adds, calculates}
use version_aware_lazy_segtr.Persistent.Growth.Frontier.{update-Adds}
use version_aware_lazy_segtr.Frontier.{FrontierCounts, frontier_counts, visited}
use version_aware_lazy_segtr.Frontier.Count.{frontier}
use version_aware_lazy_segtr.Frontier.Run.{
  frontier_counts-valid, frontier_counts-counts, visited-frontier,
}
use version_aware_lazy_segtr.Frontier.Bounds.{frontier-two_paths, two_paths}

-- An update that returns has appended k nodes, and one that throws has left the tree as it was.
abbrev pub Grows :
    PersistentLazySegmentTree → ℕ → {A : Type 0} → Run PersistentLazySegmentTree A → Type 0
Grows tree k run = Ends (λ a tree'. Longer tree.nodes k tree'.nodes) (λ e tree'. tree' ≡ tree) run

finish_update-Grows :
    (tree : PersistentLazySegmentTree) (k : ℕ) {run : Run Arena ℕ}
    → Adds tree.nodes k run
    → Grows tree k (finish_update tree run)
unfolding finish_update
finish_update-Grows tree k (returns h) = returns h
finish_update-Grows tree k (raises x) = raises (rw (take-Extends x) refl)

-- The nodes that an update of the tree appends: one for each node that it visits.
abbrev new_nodes : PersistentLazySegmentTree → (left right : ℕ) → ℤ → ℕ
new_nodes tree left right v =
    if eq_ℤ v (pos 0) then 0 else frontier left right 0 (tree.array_size - 1)

try_update-Grows :
    (tree : PersistentLazySegmentTree) (left right : ℕ) (v : ℤ)
    → left ≤ right
    → right < tree.array_size
    → Grows tree (frontier left right 0 (tree.array_size - 1)) (try_update left right v tree)
unfolding try_update
try_update-Grows tree left right v ordered inside =
    let k = frontier left right 0 (tree.array_size - 1) in
    finish_update-Grows tree k (
      calculates k tree.nodes (latest_root tree) _ λ root.
        update-Adds left right v tree.array_size root 0 (tree.array_size - 1) tree.nodes
          (omega arith) (ground arith))

range_add-Grows :
    (tree : PersistentLazySegmentTree) (left right : ℕ) (v : ℤ)
    → Grows tree (new_nodes tree left right v) (range_add left right v tree)
unfolding range_add
range_add-Grows tree left right v = elim (Result-cases (validate_initialized tree)) [
  | inr (e, bad) ↦ rw bad (raises refl)
  | inl (_, started) ↦ elim (Result-cases (validate_range left right tree)) [
    | inr (e, bad) ↦ rw (started, bad) (raises refl)
    | inl (_, ranged) ↦ elim (Bool-cases (eq_ℤ v (pos 0))) [
      | inl zero_value ↦ elim (Result-cases (latest_root tree)) [
        | inr (e, bad) ↦ rw (started, ranged, zero_value, bad) (raises refl)
        | inl (root, at) ↦
            rw (started, ranged, zero_value, at) (returns (Extends-refl tree.nodes, omega arith))
      ]
      | inr nonzero ↦
          let (_, ordered, inside) = checks_facts tree left right (rw (started, ranged)) in
          let guard =
            validate_range_add tree.numeric_domain tree.array_size left right v
              (current_leaves tree) in
          elim (Result-cases guard) [
            | inr (e, bad) ↦ rw (started, ranged, nonzero, bad) (raises refl)
            | inl (bound, proved) ↦
                rw (started, ranged, nonzero, proved)
                  (Run.bind _ (try_update-Grows tree left right v ordered inside)
                    (λ u tree' h. returns h))
          ]
    ]
  ]
]

height_fits : (n d : ℕ) → n ≤ size_max → tree_height n ≡ ok d → (0 < n) × (n ≤ 2 ^ d)
unfolding tree_height
height_fits zero d small height = cc
height_fits (suc n) d small height =
    let (h, e, fits, _) = tree_height-log2 (suc n) (omega arith) small in
    let same : h ≡ d = Result.ok_injective (sym e ∙ height) in (omega arith, rw (← same) fits)

-- An update that returns has appended k nodes at most, and one that throws has left the tree as it
-- was.
abbrev pub Slow :
    PersistentLazySegmentTree → ℕ → {A : Type 0} → Run PersistentLazySegmentTree A → Type 0
Slow tree k run =
    Ends (λ a tree'. Extends tree.nodes tree'.nodes × (node_count tree' ≤ node_count tree + k))
      (λ e tree'. tree' ≡ tree) run

-- With d the height that treeHeight gives for the size, which std::size_t holds, rangeAdd of the
-- persistent tree, if it returns, has appended 4d + 1 nodes at most behind the old ones, and if it
-- throws, the tree is as it was.
pub range_add_node_count :
    (tree : PersistentLazySegmentTree) (d left right : ℕ) (v : ℤ)
    → tree.array_size ≤ size_max
    → tree_height tree.array_size ≡ ok d
    → Slow tree (4 * d + 1) (range_add left right v tree)
range_add_node_count tree d left right v small height =
    let (positive, fits) = height_fits tree.array_size d small height in
    let most : frontier left right 0 (tree.array_size - 1) ≤ two_paths d =
      frontier-two_paths left right d 0 (tree.array_size - 1) (omega arith) (omega arith) in
    let few : new_nodes tree left right v ≤ 4 * d + 1 =
      few_nodes (eq_ℤ v (pos 0)) d (frontier left right 0 (tree.array_size - 1)) most in
    Run.mono (range_add-Grows tree left right v) (λ a tree' (ext, h). (ext, omega arith))
      (λ e tree' h. h)
  where
    few_nodes : (b : Bool) (d k : ℕ) → k ≤ two_paths d → (if b then 0 else k) ≤ 4 * d + 1
    few_nodes true d k most = omega arith
    few_nodes false zero k most = omega arith
    few_nodes false (suc zero) k most = omega arith
    few_nodes false (suc (suc d)) k most = omega arith

-- If frontierCounts and visited return k for a range of the tree, whose size std::size_t holds,
-- then rangeAdd of the persistent tree on it, if it returns, has appended exactly k nodes behind
-- the old ones, none for the value zero, and if it throws, the tree is as it was.
pub range_add_appends :
    (tree : PersistentLazySegmentTree) (left right k : ℕ) (v : ℤ) (c : FrontierCounts)
    → tree.array_size ≤ size_max
    → frontier_counts tree.array_size left right ≡ ok c
    → visited c ≡ ok k
    → Ends
        (λ version tree'.
          Extends tree.nodes tree'.nodes
          × (node_count tree' ≡ node_count tree + (if eq_ℤ v (pos 0) then 0 else k)))
        (λ e tree'. tree' ≡ tree)
        (range_add left right v tree)
range_add_appends tree left right k v c small counted total =
    let n = tree.array_size in
    let (ordered, inside) = frontier_counts-valid n left right c counted in
    let same_c =
      Result.ok_injective
        (sym counted ∙ frontier_counts-counts n left right ordered inside small) in
    let same_k =
      Result.ok_injective
        (sym (visited-frontier n left right ordered inside small) ∙ (rw same_c at total)) in
    rw (← same_k) (range_add-Grows tree left right v)
