-- ===== src/Policy.antt =====
-- The checked arithmetic of include/valseg/policy.hpp on long long, read as an integer.
pub mod Interface
pub mod Arithmetic
pub mod SumAdd
pub mod MinAdd
pub mod AffineSumMod
use version_aware_lazy_segtr.Prelude.{
  ℕ, suc, ◌+◌, ◌≤◌, ◌/◌, Bool, ◌&&◌, ◌||◌, ◌==◌, ltb, if◌then◌else◌,
}
use version_aware_lazy_segtr.Prelude.Int.{
  ℤ, pos, negsuc, pos_part, neg_part, sub_ℕ, ◌+ℤ◌, ◌-ℤ◌, ◌*ℤ◌, ltb_ℤ,
}
use version_aware_lazy_segtr.Prelude.Result.{Result, ok, err, overflow_error}

-- 2^63 - 1
abbrev pub long_max : ℕ
long_max = 0x7fff_ffff_ffff_ffff

-- std::numeric_limits<long long>::max() and min()
abbrev pub maximum : ℤ
maximum = pos long_max

abbrev pub minimum : ℤ
minimum = negsuc long_max

-- The integers that long long represents.
abbrev pub IsLong : ℤ → Type 0
IsLong z = (pos_part z ≤ long_max) × (neg_part z ≤ long_max + 1)

abbrev pub eq_ℤ : ℤ → ℤ → Bool
eq_ℤ a b = (pos_part a == pos_part b) && (neg_part a == neg_part b)

-- The / of C++, which rounds towards zero.
unfoldable pub quotient : ℤ → ℤ → ℤ
quotient (pos a) (pos b) = pos (a / b)
quotient (pos a) (negsuc b) = sub_ℕ 0 (a / suc b)
quotient (negsuc a) (pos b) = sub_ℕ 0 (suc a / b)
quotient (negsuc a) (negsuc b) = pos (suc a / suc b)

unfoldable pub checked_add : ℤ → ℤ → Result ℤ
checked_add left right =
    if (ltb_ℤ (pos 0) right && ltb_ℤ (maximum -ℤ right) left)
      || (ltb_ℤ right (pos 0) && ltb_ℤ left (minimum -ℤ right))
    then err overflow_error
    else ok (left +ℤ right)

-- The four sign cases of checkedMultiply.
unfoldable pub overflows : ℤ → ℤ → Bool
unfolding quotient
overflows left right =
    (ltb_ℤ (pos 0) left && ltb_ℤ (pos 0) right && ltb_ℤ (quotient maximum right) left)
    || (ltb_ℤ (pos 0) left && ltb_ℤ right (pos 0) && ltb_ℤ right (quotient minimum left))
    || (ltb_ℤ left (pos 0) && ltb_ℤ (pos 0) right && ltb_ℤ left (quotient minimum right))
    || (ltb_ℤ left (pos 0) && ltb_ℤ right (pos 0) && ltb_ℤ left (quotient maximum right))

unfoldable pub checked_multiply : ℤ → ℤ → Result ℤ
unfolding overflows
checked_multiply left right =
    if eq_ℤ left (pos 0) || eq_ℤ right (pos 0)
    then ok (pos 0)
    else if eq_ℤ left (negsuc 0)
    then (if eq_ℤ right minimum then err overflow_error else ok (pos 0 -ℤ right))
    else if eq_ℤ right (negsuc 0)
    then (if eq_ℤ left minimum then err overflow_error else ok (pos 0 -ℤ left))
    else if overflows left right
    then err overflow_error
    else ok (left *ℤ right)

unfoldable pub checked_length : ℕ → Result ℤ
checked_length length = if ltb long_max length then err overflow_error else ok (pos length)
