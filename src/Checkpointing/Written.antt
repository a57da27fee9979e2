-- ===== src/Checkpointing/Written.antt =====
-- The state that the writes of CheckpointingSegmentTree::rangeAdd leave.
use version_aware_lazy_segtr.Prelude.{
  ℕ, ◌%◌, ◌≡◌, ◌==◌, inl, inr, true, false, Bool, Bool-cases, List, [], ◌∷◌, ◌++◌,
}
use version_aware_lazy_segtr.Prelude.Int.{ℤ, pos}
use version_aware_lazy_segtr.Prelude.Run.{done, Action}
use version_aware_lazy_segtr.Policy.{eq_ℤ}
use version_aware_lazy_segtr.Checkpointing.Nodes.{Node}
use version_aware_lazy_segtr.Checkpointing.{
  update_event, Checkpoint, CheckpointingSegmentTree, checkpoint, append_event, take_copy, on_back,
  update_all, update_live, update_copy, update_nodes, write,
}

module _ (tree : CheckpointingSegmentTree) (version : ℕ) where
  abbrev pub due : Bool
  due = version % tree.interval == 0

  -- The checkpoints behind an update, by whether one is due.
  abbrev pub copies_of : Bool → List Node → List Checkpoint
  copies_of true nodes = tree.checkpoints ++ (checkpoint version nodes ∷ [])
  copies_of false nodes = tree.checkpoints

  abbrev pub updated : (left right : ℕ) → ℤ → List Node → ℕ → CheckpointingSegmentTree
  updated left right v nodes bound = record {
    live = nodes;
    events = tree.events ++ (update_event left right v ∷ []);
    checkpoints = copies_of due nodes;
    interval = tree.interval;
    array_size = tree.array_size;
    numeric_domain = bound;
  }

-- A step on the newest checkpoint.
on_back-append :
    (step : Action (List Node) (Unit {0})) (copies : List Checkpoint) (c : Checkpoint)
    (nodes : List Node)
    → step c.nodes ≡ done tt nodes
    → on_back step (copies ++ (c ∷ [])) ≡ done tt (copies ++ (record c { nodes = nodes } ∷ []))
unfolding on_back
on_back-append step [] c nodes run = rw run
on_back-append step (x ∷ []) c nodes run = rw run
on_back-append step (x ∷ y ∷ copies) c nodes run = rw (on_back-append step (y ∷ copies) c nodes run)

module _ (tree : CheckpointingSegmentTree) (version left right : ℕ) (v : ℤ) (bound : ℕ) where
  update_live-done :
      (s : CheckpointingSegmentTree) (nodes : List Node)
      → update_all s.array_size left right v s.live ≡ done tt nodes
      → update_live left right v s ≡ done tt (record s { live = nodes })
  unfolding update_live
  update_live-done s nodes run = rw (update_live, run)

  update_copy-due :
      (s : CheckpointingSegmentTree) (copies : List Checkpoint)
      → (version % s.interval == 0) ≡ true
      → on_back (update_all s.array_size left right v) s.checkpoints ≡ done tt copies
      → update_copy version left right v s ≡ done tt (record s { checkpoints = copies })
  unfolding update_copy
  update_copy-due s copies now run = rw (update_copy, now, run)

  update_copy-later :
      (s : CheckpointingSegmentTree)
      → (version % s.interval == 0) ≡ false
      → update_copy version left right v s ≡ done tt s
  unfolding update_copy
  update_copy-later s later = rw later

  -- The writes of a nonzero action, for an update of the live tree that returns: the new copy, if one
  -- is due, becomes the live tree's equal.
  pub write-nonzero :
      (nodes : List Node)
      → update_all tree.array_size left right v tree.live ≡ done tt nodes
      → eq_ℤ v (pos 0) ≡ false
      → write version left right v bound tree
        ≡ done version (updated tree version left right v nodes bound)
  unfolding write append_event take_copy update_nodes
  write-nonzero nodes run nonzero = elim (Bool-cases (due tree version)) [
    | inl now ↦
        let logged = record tree {
          events = tree.events ++ (update_event left right v ∷ []);
          checkpoints = tree.checkpoints ++ (checkpoint version tree.live ∷ []);
        } in
        rw (
          now,
          nonzero,
          update_live-done logged nodes run,
          update_copy-due (record logged { live = nodes })
              (tree.checkpoints ++ (checkpoint version nodes ∷ [])) now
              (on_back-append (update_all tree.array_size left right v) tree.checkpoints
                (checkpoint version tree.live) nodes run),
        )
    | inr later ↦
        let logged = record tree { events = tree.events ++ (update_event left right v ∷ []) } in
        rw (
          later,
          nonzero,
          update_live-done logged nodes run,
          update_copy-later (record logged { live = nodes }) later,
        )
  ]

  pub write-zero :
      eq_ℤ v (pos 0) ≡ true
      → write version left right v bound tree
        ≡ done version (updated tree version left right v tree.live tree.numeric_domain)
  unfolding write append_event take_copy update_nodes
  write-zero zero_value = elim (Bool-cases (due tree version)) [
    | inl now ↦ rw (now, zero_value)
    | inr later ↦ rw (later, zero_value)
  ]
