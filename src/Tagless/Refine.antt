-- ===== src/Tagless/Refine.antt =====
-- rangeAdd of the trees without tags against the brute-force array, for any update of the arena that
-- keeps the promise IsUpdate.
use version_aware_lazy_segtr.Prelude.{
  ℕ, ◌≡◌, refl, sym, inl, inr, true, false, covers, Bool-cases, arith,
}
use version_aware_lazy_segtr.Prelude.Int.{ℤ, pos, +ℤ-zero}
use version_aware_lazy_segtr.Prelude.Result.{ok, Result-cases}
use version_aware_lazy_segtr.Prelude.Run
use version_aware_lazy_segtr.Prelude.Run.{Run, Ends, returns, raises}
use version_aware_lazy_segtr.Policy.{IsLong, eq_ℤ}
use version_aware_lazy_segtr.Segment.{Values, of_list, add_range}
use version_aware_lazy_segtr.BruteForce.{BruteForceArray}
use version_aware_lazy_segtr.Arena.{Extends-refl}
use version_aware_lazy_segtr.Tagless.{
  TaglessTree, Update, validate_initialized, validate_range, range_add,
}
use version_aware_lazy_segtr.Tagless.Holds.{Holds-congr}
use version_aware_lazy_segtr.Tagless.Represents.{Represents, newest}
use version_aware_lazy_segtr.Tagless.Publish.{
  IsUpdate, checks, checks_facts, Published, Rejected, new_version, refused_by_array, whole,
  try_update-Ends,
}

-- A range addition of zero.
pub added_nothing :
    (f : Values) (left right : ℕ) (v : ℤ) → v ≡ pos 0 → (k : ℕ) → add_range f left right v k ≡ f k
added_nothing f left right v e k = elim (Bool-cases (covers left right k k)) [
  | inl on ↦ rw (on, e) (+ℤ-zero (f k))
  | inr off ↦ rw off
]

module _ {update : Update} (law : IsUpdate update) {tree : TaglessTree} {array : BruteForceArray}
    (rep : Represents tree array) (left right : ℕ) (v : ℤ) (hv : IsLong v) where
  abbrev Outcome : Run TaglessTree ℕ → Type 0
  Outcome run = Ends (Published tree array left right v) (Rejected tree array left right v) run

  module _ (started : validate_initialized tree ≡ ok tt)
      (ranged : validate_range left right tree ≡ ok tt) where
    fits : checks tree left right ≡ ok tt
    fits = rw (started, ranged)

    changed : eq_ℤ v (pos 0) ≡ false → Outcome (range_add update left right v tree)
    unfolding range_add
    changed nonzero =
        let (root, at_root, (xs, at, version)) = newest rep (checks_facts tree left right fits).0 in
        rw (started, ranged, nonzero)
          (Run.bind _
            (Run.mono (try_update-Ends rep left right v hv fits root at_root xs at version law)
              (λ u s h. h)
              (λ e s (same, is, out). (
                same,
                inr (
                  fits,
                  is,
                  refused_by_array rep left right v hv fits root at_root xs at version out,
                ),
              )))
            (λ u tree' (nodes, j, e, (ext, h)). rw e (
              returns
                (new_version rep left right v hv fits root at_root xs at version nodes j ext h))))

    unchanged : eq_ℤ v (pos 0) ≡ true → Outcome (range_add update left right v tree)
    unfolding range_add
    unchanged zero_value =
        let (root, at_root, (xs, at, version)) = newest rep (checks_facts tree left right fits).0 in
        let same = added_nothing (of_list xs) left right v (ground arith) in
        rw (started, ranged, zero_value, at_root)
          (returns (
            new_version rep left right v hv fits root at_root xs at version tree.nodes root
              (Extends-refl tree.nodes)
              (Holds-congr (whole rep left right v hv fits root at_root xs at version)
                (λ k p q. sym (same k)))))

  pub range_add-refines : Outcome (range_add update left right v tree)
  unfolding range_add
  range_add-refines = elim (Result-cases (validate_initialized tree)) [
    | inr (e, bad) ↦ rw bad (raises (refl, inl (rw bad)))
    | inl (u, started) ↦ elim (Result-cases (validate_range left right tree)) [
      | inr (e, bad) ↦ rw (started, bad) (raises (refl, inl (rw (started, bad))))
      | inl (u, ranged) ↦ elim (Bool-cases (eq_ℤ v (pos 0))) [
        | inl zero_value ↦ unchanged started ranged zero_value
        | inr nonzero ↦ changed started ranged nonzero
      ]
    ]
  ]
