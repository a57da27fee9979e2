-- ===== src/BruteForce.antt =====
-- BruteForceArray of include/valseg/brute_force_array.hpp and src/brute_force_array.cpp: each
-- version is a whole array, and an update copies the version that it starts from.
pub mod Oracle
use version_aware_lazy_segtr.Prelude.{
  ℕ, zero, suc, ◌+◌, ◌-◌, List, [], ◌∷◌, ◌++◌, length, get_elem?,
}
use version_aware_lazy_segtr.Prelude.Int.{ℤ, pos}
use version_aware_lazy_segtr.Prelude.Result.{Result, ok, ◌>>=◌, ◌>>◌, or_fault}
use version_aware_lazy_segtr.Policy.{checked_add}
use version_aware_lazy_segtr.Validation
use version_aware_lazy_segtr.Domain.{add_each, validate_canonical_sums}

pub record BruteForceArray : Type 0 where
  pub versions : List (List ℤ)

-- The constructor of an array with no versions.
abbrev pub empty : BruteForceArray
empty = record { versions = [] }

-- The history is replaced only after the validation.
unfoldable pub initialize : List ℤ → BruteForceArray → Result BruteForceArray
unfolding validate_canonical_sums
initialize initial array = do
  validate_canonical_sums initial
  ok (record array { versions = initial ∷ [] })

unfoldable pub validate_version : BruteForceArray → ℕ → Result (Unit {0})
unfolding Validation.validate_version
validate_version array version = Validation.validate_version version (length array.versions)

unfoldable pub validate_range : BruteForceArray → (version left right : ℕ) → Result (Unit {0})
unfolding Validation.validate_range
validate_range array version left right = do
  values ← or_fault (get_elem? array.versions version)
  Validation.validate_range (length values) left right

-- The new state and the number of the version that was added.
unfoldable pub range_add :
    BruteForceArray → (base_version left right : ℕ) → ℤ → Result (BruteForceArray × ℕ)
unfolding validate_version validate_range add_each validate_canonical_sums
range_add array base_version left right value = do
  validate_version array base_version
  validate_range array base_version left right
  base ← or_fault (get_elem? array.versions base_version)
  next ← add_each (right + 1 - left) left value base
  validate_canonical_sums next
  let versions = array.versions ++ (next ∷ [])
  ok (record array { versions = versions }, length versions - 1)

-- The loop for (i = left; i <= right; ++i), with the rounds that are left.
unfoldable pub sum_each : ℕ → ℕ → ℤ → List ℤ → Result ℤ
unfolding checked_add
sum_each zero i sum values = ok sum
sum_each (suc rounds) i sum values = do
  value ← or_fault (get_elem? values i)
  next ← checked_add sum value
  sum_each rounds (i + 1) next values

unfoldable pub range_sum : BruteForceArray → (version left right : ℕ) → Result ℤ
unfolding validate_version validate_range sum_each
range_sum array version left right = do
  validate_version array version
  validate_range array version left right
  values ← or_fault (get_elem? array.versions version)
  sum_each (right + 1 - left) left (pos 0) values

unfoldable pub get_version : BruteForceArray → ℕ → Result (List ℤ)
unfolding validate_version
get_version array version = do
  validate_version array version
  or_fault (get_elem? array.versions version)

abbrev pub version_count : BruteForceArray → ℕ
version_count array = length array.versions

unfoldable pub size : BruteForceArray → ℕ
size array = elim array.versions [ [] ↦ 0 | front ∷ rest ↦ length front ]
