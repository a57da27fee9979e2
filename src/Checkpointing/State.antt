-- ===== src/Checkpointing/State.antt =====
-- The state of CheckpointingSegmentTree.
use version_aware_lazy_segtr.Prelude.{ℕ, List, []}
use version_aware_lazy_segtr.Prelude.Int.{ℤ}
use version_aware_lazy_segtr.Checkpointing.Nodes.{Node}

pub record UpdateEvent : Type 0 where
  pub left : ℕ
  pub right : ℕ
  pub value : ℤ

abbrev pub update_event : ℕ → ℕ → ℤ → UpdateEvent
update_event left right value = record { left = left; right = right; value = value }

pub record Checkpoint : Type 0 where
  pub version : ℕ
  pub nodes : List Node

abbrev pub checkpoint : ℕ → List Node → Checkpoint
checkpoint version nodes = record { version = version; nodes = nodes }

-- numeric_domain is the bound that the SumAddDomainGuard keeps.
pub record CheckpointingSegmentTree : Type 0 where
  pub live : List Node
  pub events : List UpdateEvent
  pub checkpoints : List Checkpoint
  pub interval : ℕ
  pub array_size : ℕ
  pub numeric_domain : ℕ

-- The constructor of a tree with no versions.
abbrev pub empty : CheckpointingSegmentTree
empty = record {
  live = [];
  events = [];
  checkpoints = [];
  interval = 0;
  array_size = 0;
  numeric_domain = 0;
}
