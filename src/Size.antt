-- ===== src/Size.antt =====
-- Size arithmetic of include/valseg/detail/checked_size.hpp: std::size_t of 64 bits.
pub mod Exact
use version_aware_lazy_segtr.Prelude.{
  ℕ, zero, suc, ◌+◌, ◌-◌, ◌*◌, ◌/◌, ◌%◌, ltb, ◌==◌, ◌&&◌, not, if◌then◌else◌,
}
use version_aware_lazy_segtr.Prelude.Result.{
  Result, ok, err, overflow_error, invalid_argument, out_of_fuel, ◌>>=◌,
}

-- std::numeric_limits<std::size_t>::max()
abbrev pub size_max : ℕ
size_max = 0xffff_ffff_ffff_ffff

unfoldable pub checked_size_add : ℕ → ℕ → Result ℕ
checked_size_add left right =
    if ltb (size_max - left) right then err overflow_error else ok (left + right)

unfoldable pub checked_size_multiply : ℕ → ℕ → Result ℕ
checked_size_multiply left right =
    if not (left == 0) && ltb (size_max / left) right then err overflow_error else ok (left * right)

unfoldable pub canonical_node_count : ℕ → Result ℕ
unfolding checked_size_add checked_size_multiply
canonical_node_count n =
    if n == 0 then ok 0 else do inner ← checked_size_multiply 2 (n - 1); checked_size_add inner 1

unfoldable pub lazy_storage_count : ℕ → Result ℕ
unfolding checked_size_multiply
lazy_storage_count n = checked_size_multiply 4 n

abbrev pub midpoint : ℕ → ℕ → ℕ
midpoint left right = left + (right - left) / 2

unfoldable pub inclusive_length : ℕ → ℕ → Result ℕ
unfolding checked_size_add
inclusive_length left right =
    if ltb right left then err invalid_argument else checked_size_add (right - left) 1

-- The loop of treeHeight: while (n != 0) { n >>= 1; ++height; }
unfoldable pub height_loop : ℕ → ℕ → ℕ → Result ℕ
height_loop zero n height = err out_of_fuel
height_loop (suc fuel) n height =
    let rest = height_loop fuel (n / 2) (height + 1) in if n == 0 then ok height else rest

-- The loop shifts a number of 64 bits, so 65 rounds are enough.
unfoldable pub tree_height : ℕ → Result ℕ
unfolding height_loop
tree_height n = if n == 0 then err invalid_argument else height_loop 65 (n - 1) 0

unfoldable pub triangular_number : ℕ → Result ℕ
unfolding checked_size_add checked_size_multiply
triangular_number n =
    if n % 2 == 0
    then (do next ← checked_size_add n 1; checked_size_multiply (n / 2) next)
    else checked_size_multiply n (n / 2 + 1)
