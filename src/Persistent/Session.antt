-- ===== src/Persistent/Session.antt =====
-- Every state that a client can bring the tree to, by any sequence of initialize and rangeAdd calls,
-- failed ones included.
use version_aware_lazy_segtr.Prelude.{ℕ, ◌≤◌, ◌≡◌, refl, inl, inr, ◌⊎◌, List, arith, length}
use version_aware_lazy_segtr.Prelude.Int.{ℤ}
use version_aware_lazy_segtr.Prelude.Result.{
  Error, err, overflow_error, runtime_error, invalid_argument, out_of_range,
}
use version_aware_lazy_segtr.Prelude.Run
use version_aware_lazy_segtr.Prelude.Run.{Ends, done, thrown}
use version_aware_lazy_segtr.Policy.{IsLong, long_max}
use version_aware_lazy_segtr.Segment.{AllLong}
use version_aware_lazy_segtr.BruteForce
use version_aware_lazy_segtr.BruteForce.{BruteForceArray}
use version_aware_lazy_segtr.Persistent.{
  PersistentLazySegmentTree, empty, initialize, range_add, validate_initialized, validate_range,
}
use version_aware_lazy_segtr.Persistent.Represents.{Represents}
use version_aware_lazy_segtr.Persistent.Publish.{checks}
use version_aware_lazy_segtr.Persistent.Refine.{range_add-refines}
use version_aware_lazy_segtr.Persistent.Restart.{initialize-restarts}

pub data Reached : PersistentLazySegmentTree → Type 0 where
  constructed : Reached empty
  initialized :
      {tree tree' : PersistentLazySegmentTree} (values : List ℤ)
      → Reached tree
      → AllLong values
      → length values ≤ long_max
      → initialize values tree ≡ done tt tree'
      → Reached tree'
  refused :
      {tree tree' : PersistentLazySegmentTree} (values : List ℤ) (e : Error)
      → Reached tree
      → AllLong values
      → length values ≤ long_max
      → initialize values tree ≡ thrown e tree'
      → Reached tree'
  updated :
      {tree tree' : PersistentLazySegmentTree} (left right : ℕ) (v : ℤ) (version : ℕ)
      → Reached tree
      → IsLong v
      → range_add left right v tree ≡ done version tree'
      → Reached tree'
  rejected :
      {tree tree' : PersistentLazySegmentTree} (left right : ℕ) (v : ℤ) (e : Error)
      → Reached tree
      → IsLong v
      → range_add left right v tree ≡ thrown e tree'
      → Reached tree'

-- In step with some brute-force array.
abbrev pub IsInStep : PersistentLazySegmentTree → Type 0
IsInStep tree = (array : BruteForceArray) × Represents tree array

empty-IsInStep : IsInStep empty
empty-IsInStep =
    (BruteForce.empty, record { count = refl; versions = λ k root h. cc; bounded = λ xs h. cc })

-- Every state that initialize and rangeAdd calls on long longs, and on vectors no longer than the
-- greatest long long, bring a constructed tree to, failed calls included, is in step with some
-- brute-force array.
pub Reached-IsInStep : {tree : PersistentLazySegmentTree} → Reached tree → IsInStep tree
Reached-IsInStep constructed = empty-IsInStep
Reached-IsInStep (initialized {tree} values r all fits run) =
    let (array', ran, rep) =
      Run.value (initialize-restarts values all fits tree BruteForce.empty) run in
    (array', rep)
Reached-IsInStep (refused {tree} values e r all fits run) =
    let kept = Run.exception (initialize-restarts values all fits tree BruteForce.empty) run in
    rw kept.0 (Reached-IsInStep r)
Reached-IsInStep (updated left right v version r hv run) =
    let (array, rep) = Reached-IsInStep r in
    let (array', ran, rep', grown) = Run.value (range_add-refines rep left right v hv) run in
    (array', rep')
Reached-IsInStep (rejected left right v e r hv run) =
    rw (Run.exception (range_add-refines (Reached-IsInStep r).1 left right v hv) run).0
      (Reached-IsInStep r)

-- The exceptions that the header of rangeAdd names.
abbrev pub IsDocumented : Error → Type 0
IsDocumented e =
    (e ≡ runtime_error) ⊎ (e ≡ invalid_argument) ⊎ (e ≡ out_of_range) ⊎ (e ≡ overflow_error)

checks-IsDocumented :
    (tree : PersistentLazySegmentTree) (left right : ℕ) (e : Error)
    → checks tree left right ≡ err e
    → IsDocumented e
unfolding validate_initialized validate_range
checks-IsDocumented tree left right e h = ground arith

-- In a state that a client can reach, a rangeAdd of a long long that throws leaves the tree as it
-- was and throws runtime_error, invalid_argument, out_of_range or overflow_error: never an access
-- outside a vector, and never a recursion deeper than the array is long.
pub range_add_throws_cleanly :
    {tree tree' : PersistentLazySegmentTree}
    → Reached tree
    → (left right : ℕ) (v : ℤ) (e : Error) → IsLong v
    → range_add left right v tree ≡ thrown e tree'
    → (tree' ≡ tree) × IsDocumented e
range_add_throws_cleanly {tree} r left right v e hv run =
    let rejection = Run.exception (range_add-refines (Reached-IsInStep r).1 left right v hv) run in
    (
      rejection.0,
      elim (rejection.1) [
        | inl bad ↦ checks-IsDocumented tree left right e bad
        | inr (fits, is) ↦ inr (inr (inr is))
      ],
    )
