-- ===== src/Persistent/Restart.antt =====
-- initialize of PersistentLazySegmentTree against the brute-force array.
use version_aware_lazy_segtr.Prelude.{
  ℕ, zero, suc, ◌-◌, ◌≤◌, ◌<◌, ◌≡◌, refl, inl, inr, some, List, [], ◌∷◌, arith, ◌==◌, Bool-cases,
  ne_of_==, length, get_elem?,
}
use version_aware_lazy_segtr.Prelude.Int.{ℤ}
use version_aware_lazy_segtr.Prelude.Result.{Error, ok, err, overflow_error}
use version_aware_lazy_segtr.Prelude.Run
use version_aware_lazy_segtr.Prelude.Run.{Run, Ends, returns, raises, done, thrown}
use version_aware_lazy_segtr.Policy.{long_max}
use version_aware_lazy_segtr.Size.Exact.{canonical_node_count-ok}
use version_aware_lazy_segtr.Segment.{of_list, AllLong}
use version_aware_lazy_segtr.Segment.Canonical.{Canonical}
use version_aware_lazy_segtr.Domain.Envelope.{WithinBound, max_magnitude_bounds}
use version_aware_lazy_segtr.BruteForce
use version_aware_lazy_segtr.BruteForce.{BruteForceArray}
use version_aware_lazy_segtr.Arena.{no_node}
use version_aware_lazy_segtr.Persistent.{
  Arena, PersistentLazySegmentTree, initialize, build_replacement, install,
}
use version_aware_lazy_segtr.Persistent.Holds.{Holds}
use version_aware_lazy_segtr.Persistent.Build.{build-Ends}
use version_aware_lazy_segtr.Persistent.Represents.{IsVersion, Represents}
use version_aware_lazy_segtr.Domain.{max_magnitude, validate_canonical_sums}
use version_aware_lazy_segtr.Domain.Exact.{validate_canonical_sums-Decides, Decides-err, accepted}

-- The history with version 0 alone.
abbrev pub Restarted : List ℤ → BruteForceArray → Unit {0} → PersistentLazySegmentTree → Type 0
Restarted values array _ tree' =
    (array' : BruteForceArray) × (BruteForce.initialize values array ≡ ok array')
    × Represents tree' array'

-- The old tree, after an overflow that the array meets too.
abbrev pub Kept :
    List ℤ
    → BruteForceArray
    → PersistentLazySegmentTree
    → Error
    → PersistentLazySegmentTree
    → Type 0
Kept values array tree e tree' =
    (tree' ≡ tree)
    × (e ≡ overflow_error)
    × (BruteForce.initialize values array ≡ err overflow_error)

module _ (values : List ℤ) (all : AllLong values) (fits : length values ≤ long_max) where
  -- The root of version 0.
  abbrev Rooted : List ℕ → Arena → Type 0
  Rooted roots nodes =
      (root : ℕ) × (roots ≡ root ∷ [])
      × (0 < length values
          → Holds nodes root (of_list values) 0 (length values - 1)
            × Canonical (of_list values) 0 (length values - 1))

  abbrev Unfit : Error → Arena → Type 0
  Unfit e nodes =
      (e ≡ overflow_error)
      × (0 < length values)
      × (¬ Canonical (of_list values) 0 (length values - 1))

  build_replacement-Ends : Ends Rooted Unfit (build_replacement values)
  unfolding build_replacement
  build_replacement-Ends = elim (Bool-cases (length values == 0)) [
    | inl none_left ↦ rw none_left (returns (no_node, refl, λ p. absurd (ground arith)))
    | inr more ↦
        let some_element : 0 < length values = ground (arith, ne_of_== (length values) 0 more) in
        rw (more, canonical_node_count-ok (length values) fits)
          (Run.bind _
            (Run.mono
              (build-Ends values all (length values) [] 0 (length values - 1) (omega arith)
                (omega arith) (omega arith))
              (λ i s h. h) (λ e s ((is, ext), out). (is, some_element, out)))
            (λ root nodes ((ext, h), c). returns (root, refl, λ p. (h, c))))
  ]

  rejected :
      0 < length values
      → ¬ Canonical (of_list values) 0 (length values - 1)
      → validate_canonical_sums values ≡ err overflow_error
  rejected p out = Decides-err (validate_canonical_sums-Decides values all p) out

  first_version :
      (nodes : Arena) (root : ℕ)
      → (0 < length values
          → Holds nodes root (of_list values) 0 (length values - 1)
            × Canonical (of_list values) 0 (length values - 1))
      → Represents
          (record {
            nodes = nodes;
            roots = root ∷ [];
            array_size = length values;
            numeric_domain = max_magnitude values;
          })
          (record { versions = values ∷ [] })
  first_version nodes root h = record {
    count = refl;
    versions = λ k found at. only_version k found at;
    bounded = λ xs at. only_bound xs at;
  }
    where
      only_version :
          (k found : ℕ)
          → get_elem? (root ∷ []) k ≡ some found
          → (xs : List ℤ) × (get_elem? (values ∷ []) k ≡ some xs)
            × IsVersion nodes (length values) found xs
      only_version zero found at =
          let e : root ≡ found = cc in
          (
            values,
            refl,
            rw (← e)
                (record { size = refl; long = all; shape = λ p. (h p).0; contract = λ p. (h p).1 }),
          )
      only_version (suc k) found at = cc

      only_bound :
          (xs : List ℤ)
          → some values ≡ some xs
          → WithinBound (of_list xs) (length values) (max_magnitude values)
      only_bound xs at = let e : values ≡ xs = cc in rw (← e) (max_magnitude_bounds values)

  install-Ends :
      (tree : PersistentLazySegmentTree) (array : BruteForceArray) {run : Run Arena (List ℕ)}
      → Ends Rooted Unfit run
      → Ends (Restarted values array) (Kept values array tree) (install values tree run)
  unfolding install BruteForce.initialize
  install-Ends tree array (returns {s = nodes} (root, e, h)) = rw e (
      returns (
        record { versions = values ∷ [] },
        rw (accepted values all (λ p. (h p).1)),
        first_version nodes root h,
      ))
  install-Ends tree array (raises (e, p, out)) = raises (refl, e, rw (rejected p out))

  -- For a vector of long long that is no longer than the greatest long long, initialize ends; it
  -- leaves version 0 alone in the history, for a vector that a brute-force array accepts too, or
  -- it throws an overflow as the array does, and the tree is as it was.
  pub initialize-restarts :
      (tree : PersistentLazySegmentTree) (array : BruteForceArray)
      → Ends (Restarted values array) (Kept values array tree) (initialize values tree)
  unfolding initialize
  initialize-restarts tree array = install-Ends tree array build_replacement-Ends
