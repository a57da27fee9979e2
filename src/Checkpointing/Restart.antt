-- ===== src/Checkpointing/Restart.antt =====
-- initialize of CheckpointingSegmentTree against the brute-force array.
use native.Mathlib.Nat.{zero-div}
use version_aware_lazy_segtr.Prelude.{
  ℕ, zero, suc, ◌-◌, ◌*◌, ◌≤◌, ◌<◌, ◌≡◌, refl, ◌⊎◌, inl, inr, some, List, [], ◌∷◌, arith, ◌==◌,
  Bool-cases, eq_of_==, ne_of_==, length, get_elem?,
}
use version_aware_lazy_segtr.Prelude.Int.{ℤ}
use version_aware_lazy_segtr.Prelude.Result.{
  Error, ok, err, overflow_error, invalid_argument, IsOverflow,
}
use version_aware_lazy_segtr.Prelude.Run
use version_aware_lazy_segtr.Prelude.Run.{Run, Ends, returns, raises}
use version_aware_lazy_segtr.Policy.{long_max}
use version_aware_lazy_segtr.Size.Exact.{canonical_node_count-ok}
use version_aware_lazy_segtr.Segment.{of_list, AllLong}
use version_aware_lazy_segtr.Segment.Canonical.{Canonical}
use version_aware_lazy_segtr.Domain.{max_magnitude}
use version_aware_lazy_segtr.Domain.Envelope.{max_magnitude_bounds}
use version_aware_lazy_segtr.Domain.Exact.{validate_canonical_sums-Decides, Decides-err, accepted}
use version_aware_lazy_segtr.BruteForce
use version_aware_lazy_segtr.BruteForce.{BruteForceArray}
use version_aware_lazy_segtr.Checkpointing.Nodes.{Node, blank_nodes}
use version_aware_lazy_segtr.Checkpointing.{
  UpdateEvent, Checkpoint, checkpoint, CheckpointingSegmentTree, build_live, install, initialize,
}
use version_aware_lazy_segtr.Checkpointing.Holds.{Holds}
use version_aware_lazy_segtr.Checkpointing.Build.{build-Builds}
use version_aware_lazy_segtr.Checkpointing.Represents.{IsVersion, CopyAt, Makes, Represents}

-- The history with version 0 alone.
abbrev pub Restarted : List ℤ → BruteForceArray → CheckpointingSegmentTree → Type 0
Restarted values array tree' =
    (array' : BruteForceArray) × (BruteForce.initialize values array ≡ ok array')
    × Represents tree' array'

-- The old tree, after the interval 0, or an overflow that the array meets too.
abbrev pub Kept :
    List ℤ
    → ℕ
    → BruteForceArray
    → CheckpointingSegmentTree
    → Error
    → CheckpointingSegmentTree
    → Type 0
Kept values interval array tree e tree' =
    (tree' ≡ tree)
    × (((interval ≡ 0) × (e ≡ invalid_argument))
        ⊎ ((0 < interval)
            × IsOverflow e
            × (BruteForce.initialize values array ≡ err overflow_error)))

length-blank_nodes : (n : ℕ) → length (blank_nodes n) ≡ n
length-blank_nodes zero = refl
length-blank_nodes (suc n) = omega (arith, length-blank_nodes n)

module _ (values : List ℤ) (all : AllLong values) (fits : length values ≤ long_max) where
  abbrev Standing : List Node → Type 0
  Standing nodes =
      0 < length values
      → Holds nodes 0 (of_list values) 0 (length values - 1)
        × Canonical (of_list values) 0 (length values - 1)

  abbrev Unfit : Error → Type 0
  Unfit e =
      IsOverflow e × (0 < length values) × (¬ Canonical (of_list values) 0 (length values - 1))

  build_live-Ends : Ends (λ u nodes. Standing nodes) (λ e nodes. Unfit e) (build_live values)
  unfolding build_live
  build_live-Ends = elim (Bool-cases (length values == 0)) [
    | inl none_left ↦ rw none_left (returns (λ p. absurd (ground arith)))
    | inr more ↦
        let some_element : 0 < length values = ground (arith, ne_of_== (length values) 0 more) in
        let room = length-blank_nodes (2 * length values - 1) in
        rw (canonical_node_count-ok (length values) fits, more)
          (Run.mono
            (build-Builds values all (length values) (blank_nodes (2 * length values - 1)) 0 0
              (length values - 1) (omega arith) (omega arith) (omega arith) (omega arith)
              (omega arith))
            (λ u nodes (frame, h, c) p. (h, c)) (λ e nodes (is, out). (is, some_element, out)))
  ]

  module _ (interval : ℕ) (positive : 0 < interval) where
    abbrev first : List Node → ℕ → CheckpointingSegmentTree
    first nodes bound = record {
      live = nodes;
      events = [];
      checkpoints = checkpoint 0 nodes ∷ [];
      interval = interval;
      array_size = length values;
      numeric_domain = bound;
    }

    first_version : (nodes : List Node) → Standing nodes → IsVersion nodes (length values) values
    first_version nodes h = record {
      size = refl;
      long = all;
      shape = λ p. (h p).0;
      contract = λ p. (h p).1;
    }

    first_history :
        (nodes : List Node)
        → Standing nodes
        → Represents (first nodes (max_magnitude values)) (record { versions = values ∷ [] })
    first_history nodes h = record {
      positive = positive;
      count = refl;
      logged = λ k event xs ys at. no_event k event xs ys at;
      newest = λ xs at.
          let e : values ≡ xs = cc in rw (← e) (first_version nodes h, max_magnitude_bounds values);
      scheduled = rw (zero-div interval);
      copies = λ k c at. first_copy k c at;
    }
      where
        no_event :
            (k : ℕ) (event : UpdateEvent) (xs ys : List ℤ)
            → get_elem? {A = UpdateEvent} [] k ≡ some event
            → get_elem? (values ∷ []) k ≡ some xs
            → get_elem? (values ∷ []) (suc k) ≡ some ys
            → Makes event xs ys
        no_event k event xs ys at at_x at_y = cc

        first_copy :
            (k : ℕ) (c : Checkpoint)
            → get_elem? (checkpoint 0 nodes ∷ []) k ≡ some c
            → CopyAt (first nodes (max_magnitude values)) (record { versions = values ∷ [] }) k c
        first_copy zero c at =
            let e : checkpoint 0 nodes ≡ c = cc in
            rw (← e) (omega arith, (values, refl, first_version nodes h))
        first_copy (suc k) c at = cc

    install-Ends :
        (tree : CheckpointingSegmentTree) (array : BruteForceArray)
        {run : Run (List Node) (Unit {0})}
        → Ends (λ u nodes. Standing nodes) (λ e nodes. Unfit e) run
        → Ends
            (λ u tree'. Restarted values array tree')
            (Kept values interval array tree)
            (install values interval tree run)
    unfolding install BruteForce.initialize
    install-Ends tree array (returns {s = nodes} h) = returns (
      record { versions = values ∷ [] },
      rw (accepted values all (λ p. (h p).1)),
      first_history nodes h,
    )
    install-Ends tree array (raises (is, p, out)) =
        let rejected = Decides-err (validate_canonical_sums-Decides values all p) out in
        raises (refl, inr (positive, is, rw rejected))

  -- For a vector of long long that is no longer than the greatest long long, initialize of the
  -- checkpointing tree ends; with a positive interval, it leaves version 0 alone in the history,
  -- for a vector that a brute-force array accepts too, or it throws an overflow as the array does,
  -- and the tree is as it was; with the interval 0 it throws invalid_argument, and the tree is as
  -- it was.
  pub checkpointing_initialize_restarts :
      (interval : ℕ) (tree : CheckpointingSegmentTree) (array : BruteForceArray)
      → Ends
          (λ u tree'. (0 < interval) × Restarted values array tree')
          (Kept values interval array tree)
          (initialize values interval tree)
  unfolding initialize
  checkpointing_initialize_restarts interval tree array = elim (Bool-cases (interval == 0)) [
    | inl none_left ↦ rw none_left (raises (refl, inl (eq_of_== interval 0 none_left, refl)))
    | inr some_interval ↦
        let positive : 0 < interval = ground (arith, ne_of_== interval 0 some_interval) in
        rw some_interval (
          Run.mono (install-Ends interval positive tree array build_live-Ends)
            (λ u s h. (positive, h)) (λ e s h. h))
  ]
