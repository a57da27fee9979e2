-- ===== src/Checkpointing/History.antt =====
-- rangeSum of CheckpointingSegmentTree on the published versions.
use version_aware_lazy_segtr.Prelude.{
  ℕ, zero, suc, ◌+◌, ◌-◌, ◌/◌, ◌≤◌, ◌<◌, ◌≡◌, ◌==◌, ◌⊎◌, inl, inr, Bool-cases, eq_of_==, some,
  arith, List, length, get_elem?, some_entry,
}
use version_aware_lazy_segtr.Prelude.Int.{ℤ, pos}
use version_aware_lazy_segtr.Prelude.Result
use version_aware_lazy_segtr.Prelude.Result.{
  Result, Error, ok, err, Gives, gives, throws, IsOverflow, Result-cases, or_fault,
}
use version_aware_lazy_segtr.Policy.Arithmetic.{Exact}
use version_aware_lazy_segtr.Segment.{of_list, seg_sum, add_range}
use version_aware_lazy_segtr.Segment.Sum.{seg_sum-congr}
use version_aware_lazy_segtr.BruteForce.{BruteForceArray}
use version_aware_lazy_segtr.Persistent.History.{Answered, answer_at_root}
use version_aware_lazy_segtr.Checkpointing.Nodes.{Node, query}
use version_aware_lazy_segtr.Checkpointing.{
  CheckpointingSegmentTree, validate_initialized, validate_version, validate_range, range_sum,
  replay,
}
use version_aware_lazy_segtr.Checkpointing.Query.{query-Gives}
use version_aware_lazy_segtr.Checkpointing.Replay.{project-Gives}
use version_aware_lazy_segtr.Checkpointing.Schedule.{nearest_multiple}
use version_aware_lazy_segtr.Checkpointing.Represents.{IsVersion, Represents}

-- The checks that rangeSum makes of its arguments.
abbrev pub query_checks : CheckpointingSegmentTree → (version left right : ℕ) → Result (Unit {0})
query_checks tree version left right =
    Result.◌>>◌ (validate_initialized tree)
      (Result.◌>>◌ (validate_version version tree) (validate_range left right tree))

query_facts :
    (tree : CheckpointingSegmentTree) (version left right : ℕ)
    → validate_version version tree ≡ ok tt
    → validate_range left right tree ≡ ok tt
    → (version ≤ length tree.events) × (left ≤ right) × (right < tree.array_size)
unfolding validate_version validate_range
query_facts tree version left right h k = ground arith

-- The exception of the checks, or an overflow behind them.
abbrev pub Refused : CheckpointingSegmentTree → (version left right : ℕ) → Error → Type 0
Refused tree version left right e =
    (query_checks tree version left right ≡ err e)
    ⊎ ((query_checks tree version left right ≡ ok tt) × IsOverflow e)

module _ {tree : CheckpointingSegmentTree} {array : BruteForceArray} (rep : Represents tree array)
    (left right : ℕ) (ordered : left ≤ right) where
  -- The replay leads from the sum in one version to the sum in a later one.
  replay-Gives :
      (rounds i : ℕ) (xs : List ℤ) (sum : ℤ)
      → i + rounds ≤ length tree.events
      → get_elem? array.versions i ≡ some xs
      → Exact (seg_sum (of_list xs) left right) sum
      → Gives
          (Answered array (i + rounds) left right)
          IsOverflow
          (replay rounds i left right tree.events sum)
  unfolding replay
  replay-Gives zero i xs sum le at exact =
      let e : i + zero ≡ i = omega arith in gives (xs, rw e at, exact)
  replay-Gives (suc rounds) i xs sum le at exact =
      let (event, at_e) = some_entry tree.events i (omega arith) in
      let (ys, at_y) = some_entry array.versions (suc i) (omega (arith, rep.count)) in
      let (long, same) = rep.logged i event xs ys at_e at at_y in
      let next : i + 1 ≡ suc i = omega arith in
      let there : i + suc rounds ≡ suc i + rounds = omega arith in
      rw (at_e, next, there)
        (Result.bind (project-Gives (of_list xs) left right event sum ordered long exact)
          λ total now. replay-Gives rounds (suc i) ys total (omega arith) at_y (
            rw
              (seg_sum-congr (of_list ys)
                (add_range (of_list xs) event.left event.right event.value) left right
                (λ k p q. same k))
              now))

  -- A query at the root of the nodes that stand for a version.
  root_query :
      {nodes : List Node} {xs : List ℤ}
      → right < tree.array_size
      → IsVersion nodes tree.array_size xs
      → Gives
          (Exact (seg_sum (of_list xs) left right))
          IsOverflow
          (query tree.array_size nodes 0 0 (tree.array_size - 1) left right (pos 0))
  root_query {nodes} {xs} inside version =
      let root =
        answer_at_root (of_list xs) left right (tree.array_size - 1) ordered (omega arith) in
      Result.mono
        (query-Gives left right nodes tree.array_size (pos 0) (version.shape (omega arith))
          (omega arith) (omega arith) (omega arith))
        (λ s h. rw root at h) (λ e h. h)

  from_live :
      (version : ℕ)
      → version ≡ length tree.events
      → right < tree.array_size
      → Gives
          (Answered array version left right)
          IsOverflow
          (query tree.array_size tree.live 0 0 (tree.array_size - 1) left right (pos 0))
  from_live version e inside =
      let (xs, at) = some_entry array.versions version (omega (arith, rep.count)) in
      Result.mono (root_query inside (newest_at version xs e at)) (λ s h. (xs, at, h)) (λ e h. h)
    where
      newest_at :
          (version : ℕ) (xs : List ℤ)
          → version ≡ length tree.events
          → get_elem? array.versions version ≡ some xs
          → IsVersion tree.live tree.array_size xs
      newest_at version xs e at = (rep.newest xs (rw e at at)).0

  -- The nearest checkpoint at or before the version, and the events from there on.
  from_copy :
      (version : ℕ)
      → version ≤ length tree.events
      → right < tree.array_size
      → Gives (Answered array version left right) IsOverflow (
          Result.◌>>=◌ (or_fault (get_elem? tree.checkpoints (version / tree.interval))) λ base.
            Result.◌>>=◌
              (query tree.array_size base.nodes 0 0 (tree.array_size - 1) left right (pos 0))
              λ sum. replay (version - base.version) base.version left right tree.events sum)
  from_copy version le inside =
      let k = version / tree.interval in
      let (below, near) =
        nearest_multiple version (length tree.events) tree.interval rep.positive le in
      let (base, at_b) = some_entry tree.checkpoints k (omega (arith, rep.scheduled)) in
      let (number, (xs, at, copy)) = rep.copies k base at_b in
      let before : base.version ≤ version = omega (arith, number) in
      rw at_b (
        Result.bind (root_query inside copy) λ sum exact.
          replayed (version - base.version) base.version version xs sum (omega arith) le at exact)
    where
      replayed :
          (rounds i version : ℕ) (xs : List ℤ) (sum : ℤ)
          → i + rounds ≡ version
          → version ≤ length tree.events
          → get_elem? array.versions i ≡ some xs
          → Exact (seg_sum (of_list xs) left right) sum
          → Gives
              (Answered array version left right)
              IsOverflow
              (replay rounds i left right tree.events sum)
      replayed rounds i version xs sum e le at exact =
          rw (← e) (replay-Gives rounds i xs sum (omega arith) at exact)

-- rangeSum on a checkpointing tree in step with a brute-force array ends, on the newest version
-- from the live tree, and on an older one from the nearest checkpoint and the log; it returns the
-- exact sum of the range in the array's vector of that version, or throws the exception of its
-- argument checks, or an overflow if they pass.
pub checkpointing_range_sum_answers :
    {tree : CheckpointingSegmentTree} {array : BruteForceArray}
    → Represents tree array
    → (version left right : ℕ)
    → Gives
        (Answered array version left right)
        (Refused tree version left right)
        (range_sum version left right tree)
unfolding range_sum
checkpointing_range_sum_answers {tree} {array} rep version left right =
    elim (Result-cases (validate_initialized tree)) [
      | inr (e, bad) ↦ rw bad (throws (inl (rw bad)))
      | inl (u, started) ↦ elim (Result-cases (validate_version version tree)) [
        | inr (e, bad) ↦ rw (started, bad) (throws (inl (rw (started, bad))))
        | inl (u, stored) ↦ elim (Result-cases (validate_range left right tree)) [
          | inr (e, bad) ↦ rw (started, stored, bad) (throws (inl (rw (started, stored, bad))))
          | inl (u, ranged) ↦
              let (le, ordered, inside) = query_facts tree version left right stored ranged in
              let fits : query_checks tree version left right ≡ ok tt =
                rw (started, stored, ranged) in
              rw (started, stored, ranged)
                (elim (Bool-cases (version == length tree.events)) [
                  | inl latest ↦
                      let e = eq_of_== version (length tree.events) latest in
                      rw latest (
                        Result.mono (from_live rep left right ordered version e inside) (λ s h. h)
                          (λ e is. inr (fits, is)))
                  | inr older ↦ rw older (
                      Result.mono (from_copy rep left right ordered version le inside) (λ s h. h)
                        (λ e is. inr (fits, is)))
                ])
        ]
      ]
    ]
