-- ===== src/Checkpointing/Publish.antt =====
-- What the state behind the writes of CheckpointingSegmentTree::rangeAdd stands for.
use version_aware_lazy_segtr.Prelude.{
  ℕ, suc, ◌+◌, ◌/◌, ◌<◌, ◌≡◌, ◌==◌, sym, ◌∙◌, inl, inr, true, false, some, arith, List, [], ◌∷◌,
  ◌++◌, length, length-append, get_elem?, get_elem?-append, get_elem?-append_last,
  lt_length_of_get_elem?, get_elem?-append_cases,
}
use version_aware_lazy_segtr.Prelude.Int.{ℤ}
use version_aware_lazy_segtr.Segment.{of_list}
use version_aware_lazy_segtr.Domain.Envelope.{WithinBound}
use version_aware_lazy_segtr.BruteForce.{BruteForceArray}
use version_aware_lazy_segtr.Checkpointing.Nodes.{Node}
use version_aware_lazy_segtr.Checkpointing.{
  UpdateEvent, update_event, Checkpoint, CheckpointingSegmentTree, checkpoint,
}
use version_aware_lazy_segtr.Checkpointing.Schedule.{next_quotient}
use version_aware_lazy_segtr.Checkpointing.Represents.{IsVersion, Makes, CopyAt, Represents}
use version_aware_lazy_segtr.Checkpointing.Written.{due, updated}

is_zero : {n : ℕ} → n ≡ 0 → (n == 0) ≡ true
is_zero h = rw h

is_positive : {n : ℕ} → 0 < n → (n == 0) ≡ false
is_positive h = ground arith

plus_one : {m n : ℕ} → m ≡ n → m + 1 ≡ suc n
plus_one h = omega (arith, h)

module _ {tree : CheckpointingSegmentTree} {array : BruteForceArray} (rep : Represents tree array)
    (left right : ℕ) (v : ℤ) (nodes : List Node) (bound : ℕ) (ys : List ℤ) where
  abbrev event : UpdateEvent
  event = update_event left right v

  abbrev array' : BruteForceArray
  array' = record { versions = array.versions ++ (ys ∷ []) }

  abbrev tree' : CheckpointingSegmentTree
  tree' = updated tree (length tree.events + 1) left right v nodes bound

  kept_version :
      (k : ℕ) (xs : List ℤ)
      → k < length array.versions
      → get_elem? array'.versions k ≡ some xs
      → get_elem? array.versions k ≡ some xs
  kept_version k xs lt h = elim (get_elem?-append_cases array.versions ys xs k h) [
    | inl old ↦ old
    | inr (e, new) ↦ absurd (omega arith)
  ]

  last_version :
      (k : ℕ) (xs : List ℤ)
      → k ≡ length array.versions
      → get_elem? array'.versions k ≡ some xs
      → ys ≡ xs
  last_version k xs e h = elim (get_elem?-append_cases array.versions ys xs k h) [
    | inl old ↦ absurd (omega (arith, lt_length_of_get_elem? array.versions k xs old))
    | inr (e, new) ↦ new
  ]

  logged' :
      ((xs : List ℤ) → get_elem? array.versions (length tree.events) ≡ some xs → Makes event xs ys)
      → (k : ℕ) (e : UpdateEvent) (xs zs : List ℤ) → get_elem? tree'.events k ≡ some e
      → get_elem? array'.versions k ≡ some xs
      → get_elem? array'.versions (suc k) ≡ some zs
      → Makes e xs zs
  logged' makes k e xs zs at at_x at_z = elim (get_elem?-append_cases tree.events event e k at) [
    | inl old ↦
        let lt = lt_length_of_get_elem? tree.events k e old in
        rep.logged k e xs zs old (kept_version k xs (omega (arith, rep.count)) at_x)
          (kept_version (suc k) zs (omega (arith, rep.count)) at_z)
    | inr (here, new) ↦
        let last : ys ≡ zs = last_version (suc k) zs (omega (arith, rep.count)) at_z in
        let old_x = kept_version k xs (omega (arith, rep.count)) at_x in
        rw (← new, ← last) (makes xs (rw here at old_x))
  ]

  old_copy :
      (k : ℕ) (c : Checkpoint) → get_elem? tree.checkpoints k ≡ some c → CopyAt tree' array' k c
  old_copy k c at =
      let (e, (xs, at_x, version)) = rep.copies k c at in
      (e, (xs, get_elem?-append array.versions (ys ∷ []) c.version xs at_x, version))

  abbrev quotient : ℕ
  quotient = length tree.events / tree.interval

  scheduled' : length tree'.checkpoints ≡ suc (length tree'.events / tree.interval)
  scheduled' =
      let longer : length tree'.events ≡ length tree.events + 1 =
        length-append tree.events (event ∷ []) in
      rw longer (elim (next_quotient (length tree.events) tree.interval rep.positive) [
        | inl (rest, e, m) ↦
            let now : due tree (length tree.events + 1) ≡ true = is_zero rest in
            rw (now, e)
              (length-append tree.checkpoints (checkpoint (length tree.events + 1) nodes ∷ [])
                ∙ plus_one rep.scheduled)
        | inr (rest, e) ↦
            let later : due tree (length tree.events + 1) ≡ false = is_positive rest in
            rw (later, e) rep.scheduled
      ])

  copies' :
      IsVersion nodes tree.array_size ys
      → (k : ℕ) (c : Checkpoint) → get_elem? tree'.checkpoints k ≡ some c
      → CopyAt tree' array' k c
  copies' version k c at = elim (next_quotient (length tree.events) tree.interval rep.positive) [
    | inl (rest, e, m) ↦
        let new = checkpoint (length tree.events + 1) nodes in
        let now : due tree (length tree.events + 1) ≡ true = is_zero rest in
        elim (get_elem?-append_cases tree.checkpoints new c k (rw now at at)) [
          | inl old ↦ old_copy k c old
          | inr (here, same) ↦
              let e : k ≡ suc quotient = here ∙ rep.scheduled in
              rw (← same, e) (sym m, (ys, newest_version, version))
        ]
    | inr (rest, e) ↦
        let later : due tree (length tree.events + 1) ≡ false = is_positive rest in
        old_copy k c (rw later at at)
  ]
    where
      newest_version : get_elem? array'.versions (length tree.events + 1) ≡ some ys
      newest_version =
          let e : length tree.events + 1 ≡ length array.versions = omega (arith, rep.count) in
          rw e (get_elem?-append_last array.versions ys)

  -- A version that is appended on both sides keeps the two in step.
  pub published :
      ((xs : List ℤ) → get_elem? array.versions (length tree.events) ≡ some xs → Makes event xs ys)
      → IsVersion nodes tree.array_size ys
      → WithinBound (of_list ys) tree.array_size bound
      → Represents tree' array'
  published makes version within = record {
    positive = rep.positive;
    count = omega (
      arith,
      length-append array.versions (ys ∷ []),
      length-append tree.events (event ∷ []),
      rep.count,
    );
    logged = logged' makes;
    newest = λ xs at.
        let e : ys ≡ xs =
          last_version (length tree'.events) xs
            (omega (arith, length-append tree.events (event ∷ []), rep.count)) at in
        rw (← e) (version, within);
    scheduled = scheduled';
    copies = copies' version;
  }
