-- ===== src/Checkpointing/Commit.antt =====
-- The checks of CheckpointingSegmentTree::rangeAdd, its guard, and the version that it makes.
use version_aware_lazy_segtr.Prelude.{
  ℕ, ◌+◌, ◌-◌, ◌%◌, ◌==◌, ◌≤◌, ◌<◌, ◌≡◌, refl, sym, ◌∙◌, ◌⊎◌, inl, inr, Bool-cases, some, arith,
  List, [], ◌∷◌, ◌++◌, length, get_elem?,
}
use mathlib.Core.List.{append-nil}
use version_aware_lazy_segtr.Prelude.Int.{ℤ, pos, ◌+ℤ◌, +ℤ-zero}
use version_aware_lazy_segtr.Prelude.Result
use version_aware_lazy_segtr.Prelude.Result.{
  Result, Error, ok, err, Gives, gives, throws, IsOverflow, Result-cases,
}
use version_aware_lazy_segtr.Policy.{IsLong}
use version_aware_lazy_segtr.Segment.{Values, of_list, add_range}
use version_aware_lazy_segtr.Segment.Canonical.{Canonical, Canonical-congr}
use version_aware_lazy_segtr.Domain.{validate_range_add}
use version_aware_lazy_segtr.Domain.Loop.{Updated-add_range}
use version_aware_lazy_segtr.Domain.Envelope.{WithinBound}
use version_aware_lazy_segtr.Domain.Guard.{Materialized, validate_range_add-Gives}
use version_aware_lazy_segtr.BruteForce
use version_aware_lazy_segtr.BruteForce.{BruteForceArray}
use version_aware_lazy_segtr.BruteForce.Oracle
use version_aware_lazy_segtr.Checkpointing.Nodes.{Node}
use version_aware_lazy_segtr.Checkpointing.{
  Checkpoint, CheckpointingSegmentTree, update_event, validate_initialized, validate_range,
  current_leaves,
}
use version_aware_lazy_segtr.Checkpointing.Holds.{Holds, Holds-congr}
use version_aware_lazy_segtr.Checkpointing.Leaves.{materialize-Gives}
use version_aware_lazy_segtr.Checkpointing.Represents.{IsVersion, Represents}
use version_aware_lazy_segtr.Checkpointing.Publish.{published}
use version_aware_lazy_segtr.Checkpointing.Written.{updated}

-- The checks that rangeAdd makes of its arguments.
abbrev pub checks : CheckpointingSegmentTree → (left right : ℕ) → Result (Unit {0})
checks tree left right = Result.◌>>◌ (validate_initialized tree) (validate_range left right tree)

pub range_facts :
    (tree : CheckpointingSegmentTree) (left right : ℕ)
    → validate_range left right tree ≡ ok tt
    → (left ≤ right) × (right < tree.array_size)
unfolding validate_range
range_facts tree left right h = ground arith

-- What an update leaves alone: the older events and checkpoints, the interval, and the size.
pub record Grows (tree tree' : CheckpointingSegmentTree) (left right : ℕ) (v : ℤ) : Type 0 where
  pub events_kept : tree'.events ≡ tree.events ++ (update_event left right v ∷ [])
  pub new_copies : List Checkpoint
  pub copies_kept : tree'.checkpoints ≡ tree.checkpoints ++ new_copies
  pub interval_kept : tree'.interval ≡ tree.interval
  pub size_kept : tree'.array_size ≡ tree.array_size

-- The new version is the one that the array adds, under the same number.
abbrev pub Published :
    CheckpointingSegmentTree
    → BruteForceArray
    → (left right : ℕ) → ℤ
    → ℕ
    → CheckpointingSegmentTree
    → Type 0
Published tree array left right v version tree' =
    (array' : BruteForceArray) × (BruteForce.range_add array (length array.versions - 1) left right
        v
      ≡ ok (array', version))
    × Represents tree' array'
    × Grows tree tree' left right v

-- The tree is as it was. The exception is the one of the checks, or an overflow behind them.
abbrev pub Rejected :
    CheckpointingSegmentTree → (left right : ℕ) → Error → CheckpointingSegmentTree → Type 0
Rejected tree left right e tree' =
    (tree' ≡ tree)
    × ((checks tree left right ≡ err e) ⊎ ((checks tree left right ≡ ok tt) × IsOverflow e))

updated-Grows :
    (tree : CheckpointingSegmentTree) (version left right : ℕ) (v : ℤ) (nodes : List Node)
    (bound : ℕ)
    → Grows tree (updated tree version left right v nodes bound) left right v
updated-Grows tree version left right v nodes bound =
    elim (Bool-cases (version % tree.interval == 0)) [
      | inl now ↦ record {
        events_kept = refl;
        new_copies = record { version = version; nodes = nodes } ∷ [];
        copies_kept = rw now;
        interval_kept = refl;
        size_kept = refl;
      }
      | inr later ↦ record {
        events_kept = refl;
        new_copies = [];
        copies_kept = rw later (sym (append-nil tree.checkpoints));
        interval_kept = refl;
        size_kept = refl;
      }
    ]

module _ {tree : CheckpointingSegmentTree} {array : BruteForceArray} (rep : Represents tree array)
    (left right : ℕ) (v : ℤ) (hv : IsLong v) (ranged : validate_range left right tree ≡ ok tt)
    (xs : List ℤ) (at : get_elem? array.versions (length tree.events) ≡ some xs) where
  pub some_element : 0 < tree.array_size
  some_element = omega (arith, range_facts tree left right ranged)

  pub version : IsVersion tree.live tree.array_size xs
  version = (rep.newest xs at).0

  pub whole : Holds tree.live 0 (of_list xs) 0 (tree.array_size - 1)
  whole = version.shape some_element

  -- The traversal hands over the newest version.
  leaves-Gives : Gives (Materialized (of_list xs) tree.array_size) IsOverflow (current_leaves tree)
  unfolding current_leaves
  leaves-Gives =
      Result.mono
        (materialize-Gives tree.array_size (pos 0) [] whole (omega arith)
          (omega (arith, some_element)) (omega arith))
        (λ ys (zs, e, l). rw e (
          omega (arith, l.size, some_element),
          l.long,
          λ k p q. l.value k (omega (arith, l.size, some_element)) ∙ here (of_list xs) k,
        ))
        (λ e h. h)
    where
      here : (f : Values) (k : ℕ) → f (0 + k) +ℤ pos 0 ≡ f k
      here f k = let e : 0 + k ≡ k = omega arith in rw e (+ℤ-zero (f k))

  pub guard-Gives :
      Gives
        (λ b.
          Canonical (add_range (of_list xs) left right v) 0 (tree.array_size - 1)
          × WithinBound (add_range (of_list xs) left right v) tree.array_size b)
        IsOverflow
        (validate_range_add tree.numeric_domain tree.array_size left right v (current_leaves tree))
  guard-Gives =
      let (ordered, inside) = range_facts tree left right ranged in
      validate_range_add-Gives left right v hv ordered (of_list xs) tree.array_size
        tree.numeric_domain (rep.newest xs at).1 inside leaves-Gives

  -- The version that the array adds, over nodes that hold the updated values.
  pub new_version :
      (nodes : List Node) (b : ℕ)
      → Holds nodes 0 (add_range (of_list xs) left right v) 0 (tree.array_size - 1)
      → Canonical (add_range (of_list xs) left right v) 0 (tree.array_size - 1)
      → WithinBound (add_range (of_list xs) left right v) tree.array_size b
      → Published tree array left right v
          (length tree.events + 1)
          (updated tree (length tree.events + 1) left right v nodes b)
  new_version nodes b h c bounded =
      let (ordered, inside) = range_facts tree left right ranged in
      let base : length array.versions - 1 ≡ length tree.events = omega (arith, rep.count) in
      let (ys, e, u) =
        Oracle.range_add-ok array (length array.versions - 1) left right xs (rw base at)
          version.long ordered (rw version.size inside) v hv (rw version.size c) in
      let same = Updated-add_range xs ys left right v ordered u in
      let number : length tree.events + 1 ≡ length array.versions = omega (arith, rep.count) in
      (
        record { versions = array.versions ++ (ys ∷ []) },
        rw number e,
        published rep left right v nodes b ys
            (λ zs at'. let one : xs ≡ zs = only at at' in (hv, λ i. rw (← one) (same i)))
            (record {
              size = u.0 ∙ version.size;
              long = u.1;
              shape = λ p. Holds-congr h (λ k a d. sym (same k));
              contract = λ p. Canonical-congr c (λ k a d. sym (same k));
            })
            (λ k p. rw (same k) (bounded k p)),
        updated-Grows tree (length tree.events + 1) left right v nodes b,
      )
    where
      only :
          {zs : List ℤ}
          → get_elem? array.versions (length tree.events) ≡ some xs
          → get_elem? array.versions (length tree.events) ≡ some zs
          → xs ≡ zs
      only p q = cc
