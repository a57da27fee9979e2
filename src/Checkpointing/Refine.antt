-- ===== src/Checkpointing/Refine.antt =====
-- rangeAdd of CheckpointingSegmentTree against the brute-force array.
use version_aware_lazy_segtr.Prelude.{
  ℕ, ◌+◌, ◌-◌, ◌<◌, ◌≡◌, refl, sym, inl, inr, true, false, Bool-cases, some, arith, List, length,
  get_elem?, some_entry, ltb,
}
use version_aware_lazy_segtr.Prelude.Int.{ℤ, pos}
use version_aware_lazy_segtr.Prelude.Result
use version_aware_lazy_segtr.Prelude.Result.{
  Result, Error, ok, err, Gives, gives, throws, IsOverflow, Result-cases,
}
use version_aware_lazy_segtr.Prelude.Run
use version_aware_lazy_segtr.Prelude.Run.{Run, Ends, returns, raises, done, lift}
use version_aware_lazy_segtr.Policy.{IsLong, eq_ℤ}
use version_aware_lazy_segtr.Size.{size_max, checked_size_add}
use version_aware_lazy_segtr.Segment.{Values, of_list, add_range}
use version_aware_lazy_segtr.Segment.Canonical.{Canonical, Canonical-congr}
use version_aware_lazy_segtr.Domain.Envelope.{WithinBound}
use version_aware_lazy_segtr.BruteForce.{BruteForceArray}
use version_aware_lazy_segtr.Tagless.Refine.{added_nothing}
use version_aware_lazy_segtr.Checkpointing.Nodes.{Node}
use version_aware_lazy_segtr.Checkpointing.{
  CheckpointingSegmentTree, validate_initialized, validate_range, preflight, write, range_add,
}
use version_aware_lazy_segtr.Checkpointing.Holds.{Holds, Holds-congr}
use version_aware_lazy_segtr.Checkpointing.Preflight.{validate_update-Gives}
use version_aware_lazy_segtr.Checkpointing.Update.{Lands, update-Lands}
use version_aware_lazy_segtr.Checkpointing.Fits.{Fits}
use version_aware_lazy_segtr.Checkpointing.Represents.{Represents}
use version_aware_lazy_segtr.Checkpointing.Written.{write-nonzero, write-zero}
use version_aware_lazy_segtr.Checkpointing.Commit.{
  checks, range_facts, Published, Rejected, some_element, version, whole, guard-Gives, new_version,
}

-- An update of the nodes that cannot throw.
landed :
    {i l r : ℕ} {f : Values} {nodes : List Node} {run : Run (List Node) (Unit {0})}
    → Lands i f l r nodes run
    → (nodes' : List Node) × (run ≡ done tt nodes') × Holds nodes' i f l r
landed (returns {s} (frame, h)) = (s, refl, h)
landed (raises none) = absurd none

module _ {tree : CheckpointingSegmentTree} {array : BruteForceArray} (rep : Represents tree array)
    (left right : ℕ) (v : ℤ) (hv : IsLong v) (ranged : validate_range left right tree ≡ ok tt)
    (xs : List ℤ) (at : get_elem? array.versions (length tree.events) ≡ some xs) where
  -- The preflight of a nonzero action.
  preflight-Gives :
      eq_ℤ v (pos 0) ≡ false
      → Gives
          (λ b.
            Canonical (add_range (of_list xs) left right v) 0 (tree.array_size - 1)
            × WithinBound (add_range (of_list xs) left right v) tree.array_size b
            × Fits left right v tree.live 0 (of_list xs) 0 (tree.array_size - 1))
          IsOverflow
          (preflight left right v tree)
  unfolding preflight
  preflight-Gives nonzero =
      let (ordered, inside) = range_facts tree left right ranged in
      rw nonzero (
        Result.bind (guard-Gives rep left right v hv ranged xs at) λ b (c, bounded).
          Result.bind
            (validate_update-Gives v hv left right tree.live tree.array_size
              (whole rep left right v hv ranged xs at) (omega arith) (omega arith) (omega arith)
              (omega arith))
            λ total (exact, fits). gives (c, bounded, fits))

  module _ (fits : checks tree left right ≡ ok tt) where
    abbrev Outcome : Run CheckpointingSegmentTree ℕ → Type 0
    Outcome run = Ends (Published tree array left right v) (Rejected tree left right) run

    -- A nonzero action: the preflight, and then the writes.
    nonzero_added :
        eq_ℤ v (pos 0) ≡ false
        → Outcome (
            Run.and_then
              (lift (preflight left right v tree) tree)
              λ bound. write (length tree.events + 1) left right v bound)
    nonzero_added nonzero =
        Run.bind_lift _ tree (preflight-Gives nonzero)
          (λ b (c, bounded, found).
            let small : tree.array_size - 1 - 0 < tree.array_size =
              omega (arith, some_element rep left right v hv ranged xs at) in
            let (nodes, run, h) = landed (update-Lands v left right tree.array_size found small) in
            rw (write-nonzero tree (length tree.events + 1) left right v b nodes run nonzero)
              (returns (new_version rep left right v hv ranged xs at nodes b h c bounded)))
          (λ e is. (refl, inr (fits, is)))

    zero_added :
        eq_ℤ v (pos 0) ≡ true
        → Outcome (
            Run.and_then
              (lift (preflight left right v tree) tree)
              λ bound. write (length tree.events + 1) left right v bound)
    unfolding preflight
    zero_added zero_value =
        let same = added_nothing (of_list xs) left right v (ground arith) in
        rw (zero_value, write-zero tree (length tree.events + 1) left right v 0 zero_value)
          (returns (
            new_version rep left right v hv ranged xs at tree.live tree.numeric_domain
              (Holds-congr (whole rep left right v hv ranged xs at) (λ k p q. sym (same k)))
              (Canonical-congr
                ((version rep left right v hv ranged xs at).contract
                  (some_element rep left right v hv ranged xs at))
                (λ k p q. sym (same k)))
              (λ k p. rw (same k) ((rep.newest xs at).1 k p))))

    added : Outcome (
        Run.and_then
          (lift (preflight left right v tree) tree)
          λ bound. write (length tree.events + 1) left right v bound)
    added = elim (Bool-cases (eq_ℤ v (pos 0))) [
      | inl zero_value ↦ zero_added zero_value
      | inr nonzero ↦ nonzero_added nonzero
    ]

next_number : (n : ℕ) → Gives (λ k. k ≡ n + 1) IsOverflow (checked_size_add n 1)
unfolding checked_size_add
next_number n = elim (Bool-cases (ltb (size_max - n) 1)) [
  | inl over ↦ rw over (throws refl)
  | inr inside ↦ rw inside (gives refl)
]

-- On a checkpointing tree in step with a brute-force array, rangeAdd of a long long ends; it
-- publishes the version that the array adds to its newest one, under the same number, keeps the
-- two in step and every older event and checkpoint as it was, or it throws, the tree is as it was,
-- and the exception is the first of the argument checks, or an overflow if they pass.
pub checkpointing_refines :
    {tree : CheckpointingSegmentTree} {array : BruteForceArray}
    → Represents tree array
    → (left right : ℕ) (v : ℤ) → IsLong v
    → Ends
        (Published tree array left right v)
        (Rejected tree left right)
        (range_add left right v tree)
unfolding range_add
checkpointing_refines {tree} {array} rep left right v hv =
    elim (Result-cases (validate_initialized tree)) [
      | inr (e, bad) ↦ rw bad (raises (refl, inl (rw bad)))
      | inl (u, started) ↦ elim (Result-cases (validate_range left right tree)) [
        | inr (e, bad) ↦ rw (started, bad) (raises (refl, inl (rw (started, bad))))
        | inl (u, ranged) ↦
            let (xs, at) =
              some_entry array.versions (length tree.events) (omega (arith, rep.count)) in
            let fits : checks tree left right ≡ ok tt = rw (started, ranged) in
            rw (started, ranged)
              (Run.bind_lift _ tree (next_number (length tree.events))
                (λ n e. rw e (added rep left right v hv ranged xs at fits))
                (λ e is. (refl, inr (fits, is))))
      ]
    ]
