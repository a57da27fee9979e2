-- ===== src/Tests/Numeric.antt =====
-- The checked arithmetic, the numeric domain and the brute-force array at the edges of their ranges.
use version_aware_lazy_segtr.Prelude.{
  ℕ, zero, suc, ◌+◌, ◌-◌, ◌^◌, ◌≤◌, ◌<◌, ◌≡◌, ◌⊎◌, refl, List, [], ◌∷◌, ◌++◌, arith,
}
use version_aware_lazy_segtr.Prelude.Int.{ℤ, pos, negsuc, ◌+ℤ◌, ◌-ℤ◌, ◌*ℤ◌}
use version_aware_lazy_segtr.Prelude.Result.{ok, err, overflow_error}
use version_aware_lazy_segtr.Policy.{maximum, minimum, checked_multiply}
use version_aware_lazy_segtr.Size.{tree_height}
use version_aware_lazy_segtr.Size.Exact.{tree_height-log2}
use version_aware_lazy_segtr.Segment.{of_list, AllLong, sum_from, add_range}
use version_aware_lazy_segtr.Segment.Canonical.{Canonical, leaf, inner}
use version_aware_lazy_segtr.Domain.{validate_canonical_sums, validate_range_add}
use version_aware_lazy_segtr.Domain.Exact.{Decides, validate_canonical_sums-Decides}
use version_aware_lazy_segtr.Domain.Loop.{Updated}
use version_aware_lazy_segtr.Domain.Envelope.{WithinBound}
use version_aware_lazy_segtr.Domain.Guard.{validate_range_add-Decides}
use version_aware_lazy_segtr.BruteForce.{BruteForceArray, range_add}
use version_aware_lazy_segtr.BruteForce.Oracle

minimum_negated : checked_multiply minimum (negsuc 0) ≡ err overflow_error
unfolding checked_multiply
minimum_negated = refl

largest_product : checked_multiply (pos 0x4000_0000) (negsuc 0x1_ffff_ffff) ≡ ok minimum
unfolding checked_multiply ◌*ℤ◌
largest_product = refl

tree_height-log2_example :
    (h : ℕ) × (tree_height 5 ≡ ok h) × (5 ≤ 2 ^ h) × ((h ≡ 0) ⊎ (2 ^ (h - 1) < 5))
tree_height-log2_example = tree_height-log2 5 (omega arith) (omega arith)

-- The middle sum of the canonical tree is out of range, and the total is not.
abbrev steep : List ℤ
steep = maximum ∷ pos 1 ∷ negsuc 0 ∷ []

steep-AllLong : AllLong steep
steep-AllLong zero h = omega arith
steep-AllLong (suc zero) h = omega arith
steep-AllLong (suc (suc zero)) h = omega arith
steep-AllLong (suc (suc (suc k))) h = absurd (omega arith)

steep-refused : validate_canonical_sums steep ≡ err overflow_error
unfolding validate_canonical_sums ◌-ℤ◌
steep-refused = refl

validate_canonical_sums-Decides_example :
    Decides (of_list steep) 3 (λ u. Unit {0}) (validate_canonical_sums steep)
validate_canonical_sums-Decides_example =
    validate_canonical_sums-Decides steep steep-AllLong (omega arith)

abbrev flat : List ℤ
flat = pos 4 ∷ negsuc 1 ∷ []

flat-AllLong : AllLong flat
flat-AllLong zero h = omega arith
flat-AllLong (suc zero) h = omega arith
flat-AllLong (suc (suc k)) h = absurd (omega arith)

flat_bound : WithinBound (of_list flat) 2 4
flat_bound zero h = omega arith
flat_bound (suc zero) h = omega arith
flat_bound (suc (suc k)) h = absurd (omega arith)

-- The bound of 2^62 - 1 proves nothing for two leaves more, so the leaves are visited.
validate_range_add-Decides_example :
    Decides
      (add_range (of_list flat) 0 0 (pos 0x4000_0000_0000_0000))
      2
      (WithinBound (add_range (of_list flat) 0 0 (pos 0x4000_0000_0000_0000)) 2)
      (validate_range_add 4 2 0 0 (pos 0x4000_0000_0000_0000) (ok flat))
validate_range_add-Decides_example =
    validate_range_add-Decides 0 0 (pos 0x4000_0000_0000_0000) (omega arith) (omega arith)
      (of_list flat) 2 4 flat_bound (omega arith) flat (refl, flat-AllLong, λ k p q. refl)

abbrev history : BruteForceArray
history = record { versions = flat ∷ [] }

flat_updated-Canonical : Canonical (add_range (of_list flat) 1 1 (pos 3)) 0 (2 - 1)
unfolding sum_from ◌+ℤ◌
flat_updated-Canonical =
    inner {l = 0} {r = 1} (omega arith) (leaf refl (omega arith)) (leaf refl (omega arith))
      (omega arith)

range_add-ok_example :
    (ys : List ℤ) × (range_add history 0 1 1 (pos 3)
      ≡ ok (record { versions = (flat ∷ []) ++ (ys ∷ []) }, 1))
    × Updated flat (1 + 1 - 1) 1 (pos 3) ys
range_add-ok_example =
    Oracle.range_add-ok history 0 1 1 flat refl flat-AllLong (omega arith) (omega arith) (pos 3)
      (omega arith) flat_updated-Canonical
