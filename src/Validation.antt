-- ===== src/Validation.antt =====
-- Argument checks of include/valseg/detail/validation.hpp, in the order in which they are made.
use version_aware_lazy_segtr.Prelude.{ℕ, ltb, leb, ◌==◌, if◌then◌else◌}
use version_aware_lazy_segtr.Prelude.Result.{
  Result, ok, err, invalid_argument, out_of_range, runtime_error,
}

unfoldable pub validate_initialized : ℕ → Result (Unit {0})
validate_initialized version_count = if version_count == 0 then err runtime_error else ok tt

unfoldable pub validate_version : ℕ → ℕ → Result (Unit {0})
validate_version version version_count =
    if leb version_count version then err out_of_range else ok tt

unfoldable pub validate_non_empty : ℕ → Result (Unit {0})
validate_non_empty array_size = if array_size == 0 then err runtime_error else ok tt

unfoldable pub validate_range : ℕ → ℕ → ℕ → Result (Unit {0})
validate_range array_size left right =
    if ltb right left
    then err invalid_argument
    else if leb array_size right
    then err out_of_range
    else ok tt
