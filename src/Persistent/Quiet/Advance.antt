-- ===== src/Persistent/Quiet/Advance.antt =====
-- rangeAdd of the persistent tree in a small domain: it publishes a version.
use version_aware_lazy_segtr.Prelude.{
  ℕ, ◌+◌, ◌-◌, ◌*◌, ◌≤◌, ◌<◌, ◌≡◌, refl, inl, inr, true, false, arith, some, List, [], ◌∷◌, ◌++◌,
  Bool-cases, length, length-append,
}
use version_aware_lazy_segtr.Prelude.Int.{ℤ, pos}
use version_aware_lazy_segtr.Prelude.Result.{ok}
use version_aware_lazy_segtr.Prelude.Run
use version_aware_lazy_segtr.Prelude.Run.{Run, Ends, returns, raises}
use version_aware_lazy_segtr.Policy.{long_max, eq_ℤ}
use version_aware_lazy_segtr.Segment.{Values, add_range}
use version_aware_lazy_segtr.Domain.{magnitude}
use version_aware_lazy_segtr.Domain.Envelope.{WithinBound}
use version_aware_lazy_segtr.Arena.{Extends-refl, back, back-append}
use version_aware_lazy_segtr.Persistent.{
  Arena, PersistentLazySegmentTree, validate_initialized, validate_range, finish_update, try_update,
  range_add,
}
use version_aware_lazy_segtr.Persistent.Quiet.Calm.{Calm, Calm-mono}
use version_aware_lazy_segtr.Persistent.Quiet.Update.{Returns, update-Grows}
use version_aware_lazy_segtr.Persistent.Quiet.Step.{IsQuiet, guard-returns}

-- One version more, over values and tags that are larger by b at most.
pub record Advanced (w t b : ℕ) (tree : PersistentLazySegmentTree) (version : ℕ)
    (tree' : PersistentLazySegmentTree) : Type 0 where
  pub quiet : IsQuiet (w + b) (t + b) tree'
  pub size_kept : tree'.array_size ≡ tree.array_size
  pub count : length tree'.roots ≡ length tree.roots + 1
  pub last : version ≡ length tree.roots

back-stored : (roots : List ℕ) (root : ℕ) → back roots ≡ some root → 0 < length roots
back-stored [] root h = cc
back-stored (r ∷ rs) root h = omega arith

module _ {w t : ℕ} {tree : PersistentLazySegmentTree} (q : IsQuiet w t tree) (b left right : ℕ)
    (v : ℤ) (small_v : magnitude v ≤ b) (ordered : left ≤ right) (inside : right < tree.array_size)
    (room : tree.array_size * (w + b + t) ≤ long_max) where
  initialized : validate_initialized tree ≡ ok tt
  unfolding validate_initialized
  initialized = let stored = back-stored tree.roots q.root q.root_there in ground arith

  ranged : validate_range left right tree ≡ ok tt
  unfolding validate_range
  ranged = ground arith

  -- A version over a larger arena, under the guard's bound.
  advanced :
      (nodes : Arena) (j bound : ℕ) (f : Values)
      → Calm nodes (w + b) (t + b) j f 0 (tree.array_size - 1)
      → WithinBound f tree.array_size bound
      → Advanced w t b tree (length (tree.roots ++ (j ∷ [])) - 1) (record {
        nodes = nodes;
        roots = tree.roots ++ (j ∷ []);
        array_size = tree.array_size;
        numeric_domain = bound;
      })
  advanced nodes j bound f h bounded =
      let more = length-append tree.roots (j ∷ []) in
      record {
        quiet = record {
          values = f;
          root = j;
          some_element = q.some_element;
          sized = q.sized;
          root_there = back-append tree.roots j;
          calm = h;
          bounded = bounded;
        };
        size_kept = refl;
        count = more;
        last = omega (arith, more);
      }

  abbrev UpdatedTree : Unit {0} → PersistentLazySegmentTree → Type 0
  UpdatedTree _ tree' =
      (nodes : Arena) × (j : ℕ) × (tree'
        ≡ record tree { nodes = nodes; roots = tree.roots ++ (j ∷ []) })
      × Calm nodes (w + b) (t + b) j (add_range q.values left right v) 0 (tree.array_size - 1)

  finish_update-returns :
      {run : Run Arena ℕ}
      → Returns
          (λ j nodes.
            Calm nodes (w + b) (t + b) j (add_range q.values left right v) 0 (tree.array_size - 1))
          run
      → Returns UpdatedTree (finish_update tree run)
  unfolding finish_update
  finish_update-returns (returns {a = j} {s = nodes} h) = returns (nodes, j, refl, h)
  finish_update-returns (raises none_such) = absurd none_such

  try_update-returns : Returns UpdatedTree (try_update left right v tree)
  unfolding try_update
  try_update-returns = rw q.root_there (
      finish_update-returns (
        Run.mono
          (update-Grows tree.array_size w t b q.sized room v small_v left right tree.array_size
            q.calm (omega arith) (omega (arith, q.some_element)) (omega (arith, q.some_element))
            (omega arith) (omega arith))
          (λ j nodes (ext, h). h) (λ e s none_such. none_such)))

  changed : eq_ℤ v (pos 0) ≡ false → Returns (Advanced w t b tree) (range_add left right v tree)
  unfolding range_add
  changed nonzero =
      let (bound, accepted, bounded) = guard-returns q b left right v small_v ordered inside room in
      rw (initialized, ranged, nonzero, accepted)
        (Run.bind _ try_update-returns (λ u tree' (nodes, j, e, h).
          rw e (returns (advanced nodes j bound (add_range q.values left right v) h bounded))))

  -- A zero action: the newest root once more.
  unchanged : eq_ℤ v (pos 0) ≡ true → Returns (Advanced w t b tree) (range_add left right v tree)
  unfolding range_add
  unchanged zero_value =
      rw (initialized, ranged, zero_value, q.root_there)
        (returns (
          advanced tree.nodes q.root tree.numeric_domain q.values
            (Calm-mono (Extends-refl tree.nodes) (omega arith) (omega arith) q.calm) q.bounded))

  -- Where the array has room for the values and the tags that the update leads to, it returns.
  pub range_add-returns : Returns (Advanced w t b tree) (range_add left right v tree)
  range_add-returns = elim (Bool-cases (eq_ℤ v (pos 0))) [
    | inl zero_value ↦ unchanged zero_value
    | inr nonzero ↦ changed nonzero
  ]
