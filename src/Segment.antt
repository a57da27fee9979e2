-- ===== src/Segment.antt =====
-- What the structures promise: the exact sum of a segment of an array, and a range addition on it.
-- An array is a function of the index here; only the indices of a segment matter.
pub mod Sum
pub mod Canonical
use version_aware_lazy_segtr.Prelude.{
  ℕ, zero, suc, ◌+◌, ◌-◌, ◌<◌, if◌then◌else◌, covers, List, length, get_or,
}
use version_aware_lazy_segtr.Policy.{IsLong}
use version_aware_lazy_segtr.Prelude.Int.{ℤ, pos, ◌+ℤ◌}

abbrev pub Values : Type 0
Values = ℕ → ℤ

-- The values of a vector, and zero past its end.
abbrev pub of_list : List ℤ → Values
of_list xs k = get_or xs k (pos 0)

-- Every element is a long long, as in any vector of the program.
abbrev pub AllLong : List ℤ → Type 0
AllLong xs = (k : ℕ) → k < length xs → IsLong (of_list xs k)

-- The sum of n values from index l on.
unfoldable pub sum_from : Values → ℕ → ℕ → ℤ
sum_from f l zero = pos 0
sum_from f l (suc n) = f l +ℤ sum_from f (suc l) n

-- The sum over the inclusive segment from l to r.
abbrev pub seg_sum : Values → ℕ → ℕ → ℤ
seg_sum f l r = sum_from f l (r + 1 - l)

-- The values after v was added to the indices from left to right.
abbrev pub add_range : Values → ℕ → ℕ → ℤ → Values
add_range f left right v k = if covers left right k k then f k +ℤ v else f k

-- The values of a range, and zero outside it.
abbrev pub within : Values → ℕ → ℕ → Values
within f left right k = if covers left right k k then f k else pos 0

-- The values with one action added to all.
abbrev pub plus : Values → ℤ → Values
plus f v k = f k +ℤ v
