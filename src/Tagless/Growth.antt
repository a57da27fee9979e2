-- ===== src/Tagless/Growth.antt =====
-- How many nodes an update of a tree without tags appends, whatever its recursion.
use version_aware_lazy_segtr.Prelude.{
  ℕ, ◌+◌, ◌-◌, ◌≤◌, ◌<◌, ◌≡◌, inl, inr, false, [], ◌∷◌, length, length-append, get_elem?,
}
use version_aware_lazy_segtr.Prelude.Int.{ℤ, pos}
use version_aware_lazy_segtr.Prelude.Result.{or_fault, Result-cases}
use version_aware_lazy_segtr.Prelude.Run
use version_aware_lazy_segtr.Prelude.Run.{Action, pure, Run, Ends, returns, raises}
use version_aware_lazy_segtr.Policy.{checked_add, eq_ℤ}
use version_aware_lazy_segtr.Arena.{append}
use version_aware_lazy_segtr.Tagless.{
  Arena, Node, node, join, TaglessTree, latest_root, validate_initialized, validate_range,
  finish_update, try_update, node_count,
}
use version_aware_lazy_segtr.Tagless
use version_aware_lazy_segtr.Tagless.Publish.{checks_facts}

-- A run that returns has appended exactly k nodes.
abbrev pub Appends : Arena → ℕ → Run Arena ℕ → Type 0
Appends nodes k run = Ends (λ i nodes'. length nodes' ≡ length nodes + k) (λ e nodes'. Unit {0}) run

pub append_one : (n : Node) (nodes : Arena) → Appends nodes 1 (append n nodes)
unfolding append
append_one n nodes = returns (length-append nodes (n ∷ []))

pub join_one : (a b : ℕ) (nodes : Arena) → Appends nodes 1 (join a b nodes)
unfolding join
join_one a b nodes =
    Run.calculates (or_fault (get_elem? nodes a)) _ nodes
      (λ left.
        Run.calculates (or_fault (get_elem? nodes b)) _ nodes
          (λ right.
            Run.calculates (checked_add left.sum right.sum) _ nodes
              (λ sum. append_one (node a b sum) nodes) (λ e. tt))
          (λ e. tt))
      (λ e. tt)

module _ (update : ℕ → (node_index segment_left segment_right left right : ℕ) → ℤ → Action Arena ℕ)
    (tree : TaglessTree) (left right : ℕ) (v : ℤ) (k : ℕ) where
  -- A call that returns has appended k nodes.
  abbrev pub Appended : {A : Type 0} → Run TaglessTree A → Type 0
  Appended run = Ends (λ a tree'. node_count tree' ≡ node_count tree + k) (λ e tree'. Unit {0}) run

  finish-Appended :
      {run : Run Arena ℕ} → Appends tree.nodes k run → Appended (finish_update tree run)
  unfolding finish_update
  finish-Appended (returns h) = returns h
  finish-Appended (raises u) = raises tt

  -- From what the recursion appends on a valid range.
  pub range_add-Appended :
      (left ≤ right
        → right < tree.array_size
        → (root : ℕ)
        → Appends tree.nodes k
            (update tree.array_size root 0 (tree.array_size - 1) left right v tree.nodes))
      → eq_ℤ v (pos 0) ≡ false
      → Appended (Tagless.range_add update left right v tree)
  unfolding Tagless.range_add try_update
  range_add-Appended appends nonzero = elim (Result-cases (validate_initialized tree)) [
    | inr (e, bad) ↦ rw bad (raises tt)
    | inl (_, started) ↦ elim (Result-cases (validate_range left right tree)) [
      | inr (e, bad) ↦ rw (started, bad) (raises tt)
      | inl (_, ranged) ↦
          let (_, ordered, inside) = checks_facts tree left right (rw (started, ranged)) in
          rw (started, ranged, nonzero)
            (Run.bind _
              (finish-Appended
                (Run.calculates (latest_root tree) _ tree.nodes (appends ordered inside) (λ e. tt)))
              (λ u tree' h. returns h))
    ]
  ]
