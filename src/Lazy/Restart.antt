-- ===== src/Lazy/Restart.antt =====
-- initialize of LazySegmentTree against an array.
use version_aware_lazy_segtr.Prelude.{
  ℕ, ◌-◌, ◌*◌, ◌≤◌, ◌<◌, ◌≡◌, refl, inl, inr, ◌⊎◌, List, arith, ◌==◌, Bool-cases, ne_of_==, length,
}
use version_aware_lazy_segtr.Prelude.Int.{ℤ}
use version_aware_lazy_segtr.Prelude.Result.{Error, ok, err, overflow_error, IsOverflow}
use version_aware_lazy_segtr.Prelude.Run
use version_aware_lazy_segtr.Prelude.Run.{Run, Ends, returns, raises}
use version_aware_lazy_segtr.Size.{size_max, lazy_storage_count}
use version_aware_lazy_segtr.Size.Exact.{checked_size_multiply-exact}
use version_aware_lazy_segtr.Segment.{of_list, AllLong}
use version_aware_lazy_segtr.Segment.Canonical.{Canonical}
use version_aware_lazy_segtr.Domain.Envelope.{max_magnitude_bounds}
use version_aware_lazy_segtr.Domain.Exact.{validate_canonical_sums-Decides, Decides-err, accepted}
use version_aware_lazy_segtr.BruteForce
use version_aware_lazy_segtr.Lazy.{LazySegmentTree, zeros, initialize, build_replacement, install}
use version_aware_lazy_segtr.Lazy.Holds.{Holds}
use version_aware_lazy_segtr.Lazy.Build.{over, build-Builds}
use version_aware_lazy_segtr.Lazy.Room.{root_room, length-zeros}
use version_aware_lazy_segtr.Lazy.Represents.{Represents, snapshot}

-- The tree stands for the vector, which the array accepts too.
abbrev pub Replaced : List ℤ → LazySegmentTree → Type 0
Replaced values tree' =
    (BruteForce.initialize values BruteForce.empty ≡ ok (snapshot values)) × Represents tree' values

-- The tree is as it was, after an overflow: of the storage count, or as the array throws it.
abbrev pub Kept : List ℤ → LazySegmentTree → Error → LazySegmentTree → Type 0
Kept values tree e tree' =
    (tree' ≡ tree)
    × IsOverflow e
    × ((size_max < 4 * length values)
        ⊎ (BruteForce.initialize values BruteForce.empty ≡ err overflow_error))

module _ (values : List ℤ) (all : AllLong values) (small : 4 * length values ≤ size_max) where
  abbrev storage : ℕ
  storage = 4 * length values

  abbrev Standing : List ℤ → Type 0
  Standing sums =
      0 < length values
      → Holds (over values all storage sums) 0 (of_list values) 0 (length values - 1)
        × Canonical (of_list values) 0 (length values - 1)

  abbrev Unfit : Error → Type 0
  Unfit e =
      IsOverflow e × (0 < length values) × (¬ Canonical (of_list values) 0 (length values - 1))

  build_replacement-Ends :
      Ends (λ u sums. Standing sums) (λ e sums. Unfit e) (build_replacement values storage)
  unfolding build_replacement
  build_replacement-Ends = elim (Bool-cases (length values == 0)) [
    | inl none_left ↦ rw none_left (returns (λ p. absurd (ground arith)))
    | inr more ↦
        let some_element : 0 < length values = ground (arith, ne_of_== (length values) 0 more) in
        let (k, room) = root_room (length values) some_element (omega arith) in
        rw more (
          Run.mono
            (build-Builds values all storage (length values) k (zeros storage) 0 0
              (length values - 1) (length-zeros storage) room (omega arith) (omega arith)
              (omega arith))
            (λ u sums (size, frame, h, c) p. (h, c)) (λ e sums (is, out). (is, some_element, out)))
  ]

  install-Ends :
      (tree : LazySegmentTree) {run : Run (List ℤ) (Unit {0})}
      → Ends (λ u sums. Standing sums) (λ e sums. Unfit e) run
      → Ends (λ u tree'. Replaced values tree') (Kept values tree) (install values storage tree run)
  unfolding install BruteForce.initialize
  install-Ends tree (returns {s = sums} h) = returns (
    rw (accepted values all (λ p. (h p).1)),
    record {
      size = refl;
      long = all;
      shape = λ p. (h p).0;
      contract = λ p. (h p).1;
      bounded = max_magnitude_bounds values;
    },
  )
  install-Ends tree (raises (is, p, out)) =
      let rejected = Decides-err (validate_canonical_sums-Decides values all p) out in
      raises (refl, is, inr (rw rejected))

-- For a vector of long long, initialize of the in-place tree ends; the tree stands for the vector,
-- and a brute-force array accepts it too, or it throws an overflow, the tree is as it was, and
-- either 4n is no std::size_t or the array throws an overflow too.
pub lazy_initialize_replaces :
    (values : List ℤ)
    → AllLong values
    → (tree : LazySegmentTree)
    → Ends (λ u tree'. Replaced values tree') (Kept values tree) (initialize values tree)
unfolding initialize lazy_storage_count
lazy_initialize_replaces values all tree =
    Run.bind_lift _ tree (checked_size_multiply-exact 4 (length values))
      (λ count (exact, fits). rw exact (
        let small : 4 * length values ≤ size_max = omega arith in
        install-Ends values all small tree (build_replacement-Ends values all small)))
      (λ e (is, large). (refl, is, inl large))
