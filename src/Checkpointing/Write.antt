-- ===== src/Checkpointing/Write.antt =====
-- The writes of rangeAdd in src/checkpointing_segment_tree.cpp, in their order.
use version_aware_lazy_segtr.Prelude.{ℕ, ◌-◌, ◌%◌, ◌==◌, List, [], ◌∷◌, ◌++◌, if◌then◌else◌}
use version_aware_lazy_segtr.Prelude.Int.{ℤ, pos}
use version_aware_lazy_segtr.Prelude.Result.{fault}
use version_aware_lazy_segtr.Prelude.Run.{done, thrown, Action, pure, ◌>>◌}
use version_aware_lazy_segtr.Policy.{eq_ℤ}
use version_aware_lazy_segtr.Checkpointing.Nodes.{Node, update}
use version_aware_lazy_segtr.Checkpointing.State.{
  CheckpointingSegmentTree, Checkpoint, checkpoint, update_event,
}

-- update from the root of a vector with the tree's size.
abbrev pub update_all : (array_size left right : ℕ) → ℤ → Action (List Node) (Unit {0})
update_all array_size left right value = update array_size 0 0 (array_size - 1) left right value

-- events.push_back
unfoldable pub append_event : (left right : ℕ) → ℤ → Action CheckpointingSegmentTree (Unit {0})
append_event left right value tree =
    done tt (record tree { events = tree.events ++ (update_event left right value ∷ []) })

-- The copy of the live tree before the update.
unfoldable pub take_copy : ℕ → Action CheckpointingSegmentTree (Unit {0})
take_copy version tree =
    if version % tree.interval == 0
    then done tt
        (record tree { checkpoints = tree.checkpoints ++ (checkpoint version tree.live ∷ []) })
    else done tt tree

unfoldable pub update_live : (left right : ℕ) → ℤ → Action CheckpointingSegmentTree (Unit {0})
update_live left right value tree = elim (update_all tree.array_size left right value tree.live) [
  | done _ nodes ↦ done tt (record tree { live = nodes })
  | thrown e nodes ↦ thrown e (record tree { live = nodes })
]

-- A step on the nodes of checkpoints.back().
unfoldable pub on_back : Action (List Node) (Unit {0}) → Action (List Checkpoint) (Unit {0})
on_back step [] = thrown fault []
on_back step (c ∷ []) = elim (step c.nodes) [
  | done _ nodes ↦ done tt (record c { nodes = nodes } ∷ [])
  | thrown e nodes ↦ thrown e (record c { nodes = nodes } ∷ [])
]
on_back step (c ∷ d ∷ rest) = elim (on_back step (d ∷ rest)) [
  | done _ copies ↦ done tt (c ∷ copies)
  | thrown e copies ↦ thrown e (c ∷ copies)
]

-- The copy receives the update like the live tree.
unfoldable pub update_copy :
    (version left right : ℕ) → ℤ → Action CheckpointingSegmentTree (Unit {0})
unfolding on_back
update_copy version left right value tree =
    if version % tree.interval == 0
    then (elim (on_back (update_all tree.array_size left right value) tree.checkpoints) [
      | done _ copies ↦ done tt (record tree { checkpoints = copies })
      | thrown e copies ↦ thrown e (record tree { checkpoints = copies })
    ])
    else done tt tree

-- The writes of rangeAdd to the nodes, and the guard's new bound.
unfoldable pub update_nodes :
    (version left right : ℕ) → ℤ → ℕ → Action CheckpointingSegmentTree (Unit {0})
unfolding update_live update_copy
update_nodes version left right value bound tree =
    if eq_ℤ value (pos 0)
    then done tt tree
    else ((do
      update_live left right value
      update_copy version left right value
      λ tree. done tt (record tree { numeric_domain = bound }))
        tree)

unfoldable pub write : (version left right : ℕ) → ℤ → ℕ → Action CheckpointingSegmentTree ℕ
unfolding append_event take_copy update_nodes
write version left right value bound = do
  append_event left right value
  take_copy version
  update_nodes version left right value bound
  pure version
