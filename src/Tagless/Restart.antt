-- ===== src/Tagless/Restart.antt =====
-- initialize of the trees without tags against the brute-force array.
use version_aware_lazy_segtr.Prelude.{
  ℕ, zero, suc, ◌-◌, ◌≤◌, ◌<◌, ◌≡◌, refl, inl, inr, some, List, [], ◌∷◌, arith, ◌==◌, Bool-cases,
  ne_of_==, length, get_elem?,
}
use version_aware_lazy_segtr.Prelude.Int.{ℤ}
use version_aware_lazy_segtr.Prelude.Result.{Error, ok, err, overflow_error}
use version_aware_lazy_segtr.Prelude.Run
use version_aware_lazy_segtr.Prelude.Run.{Run, Ends, returns, raises, done, thrown}
use version_aware_lazy_segtr.Policy.{long_max}
use version_aware_lazy_segtr.Size.Exact.{canonical_node_count-ok}
use version_aware_lazy_segtr.Segment.{of_list, AllLong}
use version_aware_lazy_segtr.Segment.Canonical.{Canonical}
use version_aware_lazy_segtr.Domain.Exact.{validate_canonical_sums-Decides, Decides-err, accepted}
use version_aware_lazy_segtr.BruteForce
use version_aware_lazy_segtr.BruteForce.{BruteForceArray}
use version_aware_lazy_segtr.Arena.{no_node}
use version_aware_lazy_segtr.Tagless.{Arena, TaglessTree, initialize, build_replacement, install}
use version_aware_lazy_segtr.Tagless.Holds.{Holds, Holds-Canonical}
use version_aware_lazy_segtr.Tagless.Build.{build-Makes}
use version_aware_lazy_segtr.Tagless.Represents.{IsVersion, Represents}

-- The history with version 0 alone.
abbrev pub Restarted : List ℤ → BruteForceArray → Unit {0} → TaglessTree → Type 0
Restarted values array _ tree' =
    (array' : BruteForceArray) × (BruteForce.initialize values array ≡ ok array')
    × Represents tree' array'

-- The old tree, after an overflow that the array meets too.
abbrev pub Kept : List ℤ → BruteForceArray → TaglessTree → Error → TaglessTree → Type 0
Kept values array tree e tree' =
    (tree' ≡ tree)
    × (e ≡ overflow_error)
    × (BruteForce.initialize values array ≡ err overflow_error)

module _ (values : List ℤ) (all : AllLong values) (fits : length values ≤ long_max) where
  -- The root of version 0.
  abbrev Rooted : List ℕ → Arena → Type 0
  Rooted roots nodes =
      (root : ℕ) × (roots ≡ root ∷ [])
      × (0 < length values → Holds nodes root (of_list values) 0 (length values - 1))

  abbrev Unfit : Error → Arena → Type 0
  Unfit e nodes =
      (e ≡ overflow_error)
      × (0 < length values)
      × (¬ Canonical (of_list values) 0 (length values - 1))

  build_replacement-Ends : Ends Rooted Unfit (build_replacement values)
  unfolding build_replacement
  build_replacement-Ends = elim (Bool-cases (length values == 0)) [
    | inl none_left ↦ rw none_left (returns (no_node, refl, λ p. absurd (ground arith)))
    | inr more ↦
        let some_element : 0 < length values = ground (arith, ne_of_== (length values) 0 more) in
        rw (more, canonical_node_count-ok (length values) fits)
          (Run.bind _
            (Run.mono
              (build-Makes values all (length values) [] 0 (length values - 1) (omega arith)
                (omega arith) (omega arith))
              (λ i s h. h) (λ e s (is, ext, out). (is, some_element, out)))
            (λ root nodes (ext, h). returns (root, refl, λ p. h)))
  ]

  first_version :
      (nodes : Arena) (root : ℕ)
      → (0 < length values → Holds nodes root (of_list values) 0 (length values - 1))
      → Represents
          (record { nodes = nodes; roots = root ∷ []; array_size = length values })
          (record { versions = values ∷ [] })
  first_version nodes root h = record {
    count = refl;
    versions = λ k found at. only_version k found at;
  }
    where
      only_version :
          (k found : ℕ)
          → get_elem? (root ∷ []) k ≡ some found
          → (xs : List ℤ) × (get_elem? (values ∷ []) k ≡ some xs)
            × IsVersion nodes (length values) found xs
      only_version zero found at =
          let e : root ≡ found = cc in
          (values, refl, rw (← e) (record { size = refl; long = all; shape = h }))
      only_version (suc k) found at = cc

  install-Ends :
      (tree : TaglessTree) (array : BruteForceArray) {run : Run Arena (List ℕ)}
      → Ends Rooted Unfit run
      → Ends (Restarted values array) (Kept values array tree) (install values tree run)
  unfolding install BruteForce.initialize
  install-Ends tree array (returns {s = nodes} (root, e, h)) = rw e (
      returns (
        record { versions = values ∷ [] },
        rw (accepted values all (λ p. Holds-Canonical (h p))),
        first_version nodes root h,
      ))
  install-Ends tree array (raises (e, p, out)) =
      let rejected = Decides-err (validate_canonical_sums-Decides values all p) out in
      raises (refl, e, rw rejected)

  -- For a vector of long long that is no longer than the greatest long long, initialize of a
  -- tagless tree ends; it leaves version 0 alone in the history, for a vector that a brute-force
  -- array accepts too, or it throws an overflow as the array does, and the tree is as it was.
  pub tagless_initialize_restarts :
      (tree : TaglessTree) (array : BruteForceArray)
      → Ends (Restarted values array) (Kept values array tree) (initialize values tree)
  unfolding initialize
  tagless_initialize_restarts tree array = install-Ends tree array build_replacement-Ends
