-- ===== src/Checkpointing/Represents.antt =====
-- When a CheckpointingSegmentTree is in step with a brute-force array.
use version_aware_lazy_segtr.Prelude.{
  ℕ, suc, ◌-◌, ◌*◌, ◌/◌, ◌<◌, ◌≡◌, some, List, length, get_elem?,
}
use version_aware_lazy_segtr.Prelude.Int.{ℤ}
use version_aware_lazy_segtr.Policy.{IsLong}
use version_aware_lazy_segtr.Segment.{of_list, AllLong, add_range}
use version_aware_lazy_segtr.Segment.Canonical.{Canonical}
use version_aware_lazy_segtr.Domain.Envelope.{WithinBound}
use version_aware_lazy_segtr.BruteForce.{BruteForceArray}
use version_aware_lazy_segtr.Checkpointing.Nodes.{Node}
use version_aware_lazy_segtr.Checkpointing.Holds.{Holds}
use version_aware_lazy_segtr.Checkpointing.{UpdateEvent, Checkpoint, CheckpointingSegmentTree}

-- The nodes stand for the vector xs, which meets the numeric contract.
pub record IsVersion (nodes : List Node) (n : ℕ) (xs : List ℤ) : Type 0 where
  pub size : length xs ≡ n
  pub long : AllLong xs
  pub shape : 0 < n → Holds nodes 0 (of_list xs) 0 (n - 1)
  pub contract : 0 < n → Canonical (of_list xs) 0 (n - 1)

-- The event makes the vector ys of the vector xs.
abbrev pub Makes : UpdateEvent → List ℤ → List ℤ → Type 0
Makes event xs ys =
    IsLong event.value
    × ((i : ℕ) → of_list ys i ≡ add_range (of_list xs) event.left event.right event.value i)

-- The checkpoint is the k-th, and stands for the version at the k-th multiple of the interval.
abbrev pub CopyAt : CheckpointingSegmentTree → BruteForceArray → ℕ → Checkpoint → Type 0
CopyAt tree array k c =
    (c.version ≡ k * tree.interval)
    × ((xs : List ℤ) × (get_elem? array.versions c.version ≡ some xs)
        × IsVersion c.nodes tree.array_size xs)

-- The events lead from version to version, the live tree stands for the newest version, and the
-- checkpoints for those at all multiples of the interval. The guard's bound covers the newest one.
pub record Represents (tree : CheckpointingSegmentTree) (array : BruteForceArray) : Type 0 where
  pub positive : 0 < tree.interval
  pub count : length array.versions ≡ suc (length tree.events)
  pub logged :
      (k : ℕ) (event : UpdateEvent) (xs ys : List ℤ)
      → get_elem? tree.events k ≡ some event
      → get_elem? array.versions k ≡ some xs
      → get_elem? array.versions (suc k) ≡ some ys
      → Makes event xs ys
  pub newest :
      (xs : List ℤ)
      → get_elem? array.versions (length tree.events) ≡ some xs
      → IsVersion tree.live tree.array_size xs
        × WithinBound (of_list xs) tree.array_size tree.numeric_domain
  pub scheduled : length tree.checkpoints ≡ suc (length tree.events / tree.interval)
  pub copies :
      (k : ℕ) (c : Checkpoint) → get_elem? tree.checkpoints k ≡ some c → CopyAt tree array k c
