-- ===== src/Domain.antt =====
-- The common numeric domain of include/valseg/detail/sum_add_domain.hpp: validation of every
-- canonical sum, and the guard that proves it from one magnitude bound where it can.
pub mod Exact
pub mod Loop
pub mod Envelope
pub mod Guard
use version_aware_lazy_segtr.Prelude.{
  ℕ, zero, suc, ◌+◌, ◌-◌, ◌*◌, ◌/◌, ◌==◌, ◌||◌, Bool, true, false, List, [], ◌∷◌, ltb, leb,
  if◌then◌else◌, length, get_elem?, set,
}
use version_aware_lazy_segtr.Prelude.Int.{ℤ, pos, negsuc}
use version_aware_lazy_segtr.Prelude.Result.{
  Result, ok, err, logic_error, out_of_fuel, ◌>>=◌, ◌>>◌, or_fault,
}
use version_aware_lazy_segtr.Policy.{long_max, checked_add}
use version_aware_lazy_segtr.Size.{size_max, midpoint}

-- validateCanonicalSums over one segment. The fuel bounds the depth of the recursion.
unfoldable pub canonical_sum : ℕ → List ℤ → ℕ → ℕ → Result ℤ
unfolding checked_add
canonical_sum zero values left right = err out_of_fuel
canonical_sum (suc fuel) values left right =
    if left == right then or_fault (get_elem? values left) else do
      let middle = midpoint left right
      a ← canonical_sum fuel values left middle
      b ← canonical_sum fuel values (middle + 1) right
      checked_add a b

-- validateCanonicalSums over all values; a segment of n values is at most n deep.
unfoldable pub validate_canonical_sums : List ℤ → Result (Unit {0})
unfolding canonical_sum
validate_canonical_sums values =
    if length values == 0
    then ok tt
    else canonical_sum (length values) values 0 (length values - 1) >> ok tt

-- The loop for (index = left; index <= right; ++index), with the rounds that are left.
unfoldable pub add_each : ℕ → ℕ → ℤ → List ℤ → Result (List ℤ)
unfolding checked_add
add_each zero index value proposed = ok proposed
add_each (suc rounds) index value proposed = do
  old ← or_fault (get_elem? proposed index)
  new ← checked_add old value
  add_each rounds (index + 1) value (set proposed index new)

-- -(value + 1) is n for a negative value -(n + 1).
abbrev pub magnitude : ℤ → ℕ
magnitude (pos n) = n
magnitude (negsuc n) = n + 1

unfoldable pub max_magnitude_from : ℕ → List ℤ → ℕ
max_magnitude_from maximum [] = maximum
max_magnitude_from maximum (value ∷ values) =
    max_magnitude_from (if ltb maximum (magnitude value) then magnitude value else maximum) values

unfoldable pub max_magnitude : List ℤ → ℕ
unfolding max_magnitude_from
max_magnitude values = max_magnitude_from 0 values

-- Bound is std::uint64_t, whose greatest value is that of std::size_t.
unfoldable pub saturated_add : ℕ → ℕ → ℕ
saturated_add left right = if ltb (size_max - left) right then size_max else left + right

unfoldable pub proves_canonical_representability : ℕ → ℕ → Bool
proves_canonical_representability bound size =
    if bound == 0 || size == 0
    then true
    else if ltb long_max size
    then false
    else leb bound (long_max / size)

-- SumAddDomainGuard::validateRangeAdd on the guard's magnitude bound. The traversal hands back the
-- current leaves, or throws; it is run only if the bound proves nothing.
unfoldable pub validate_range_add : ℕ → (size left right : ℕ) → ℤ → Result (List ℤ) → Result ℕ
unfolding saturated_add proves_canonical_representability add_each validate_canonical_sums
    max_magnitude
validate_range_add magnitude_bound size left right value materialize =
    let conservative = saturated_add magnitude_bound (magnitude value) in
    if proves_canonical_representability conservative size then ok conservative else do
      proposed ← materialize
      (if length proposed == size then ok tt else err logic_error)
      updated ← add_each (right + 1 - left) left value proposed
      validate_canonical_sums updated
      ok (max_magnitude updated)
