-- ===== src/Policy/Arithmetic.antt =====
-- checkedAdd and checkedMultiply of include/valseg/policy.hpp against the integers.
use version_aware_lazy_segtr.Prelude.{
  inl, inr, refl, ◌⊎◌, Bool-cases, ltb→le, ℕ, suc, ◌+◌, ◌*◌, ◌≤◌, ◌<◌, ◌/◌, ◌≡◌, arith, ltb,
}
use version_aware_lazy_segtr.Prelude.Int.{ℤ, pos, negsuc, ◌+ℤ◌, ◌-ℤ◌, ◌*ℤ◌, int_laws}
use version_aware_lazy_segtr.Prelude.Result
use version_aware_lazy_segtr.Prelude.Result.{
  Error, ok, err, overflow_error, IsOverflow, Gives, gives, throws,
}
use native.Mathlib.Nat.{div-lt_iff_lt-mul}
use mathlib.Core.Logic.{◌↔◌}
use version_aware_lazy_segtr.Policy.{
  long_max, IsLong, checked_add, checked_multiply, checked_length,
}

pub checked_add-ok :
    (a b : ℤ) → IsLong a → IsLong b → IsLong (a +ℤ b) → checked_add a b ≡ ok (a +ℤ b)
unfolding checked_add
checked_add-ok a b ha hb h = grind (int_laws)

pub checked_add-err :
    (a b : ℤ) → IsLong a → IsLong b → ¬ IsLong (a +ℤ b) → checked_add a b ≡ err overflow_error
unfolding checked_add
checked_add-err a b ha hb h = grind (int_laws)

-- What the overflow test of checkedMultiply compares, over the magnitudes.
div-lt : (m a b : ℕ) → 0 < b → (m / b < a) ↔ (m < a * b)
div-lt m a b h = div-lt_iff_lt-mul h

pub checked_multiply-ok :
    (a b : ℤ) → IsLong a → IsLong b → IsLong (a *ℤ b) → checked_multiply a b ≡ ok (a *ℤ b)
unfolding checked_multiply ◌*ℤ◌ ◌-ℤ◌
checked_multiply-ok (pos a) (pos b) ha hb h = ground (arith, div-lt long_max a b)
checked_multiply-ok (pos a) (negsuc b) ha hb h = ground (arith, div-lt (long_max + 1) (suc b) a)
checked_multiply-ok (negsuc a) (pos b) ha hb h = ground (arith, div-lt (long_max + 1) (suc a) b)
checked_multiply-ok (negsuc a) (negsuc b) ha hb h = ground (arith, div-lt long_max (suc a) (suc b))

-- Out of range, the product is refused.
pub checked_multiply-err :
    (a b : ℤ) → IsLong a → IsLong b → ¬ IsLong (a *ℤ b) → checked_multiply a b ≡ err overflow_error
unfolding checked_multiply ◌*ℤ◌ ◌-ℤ◌
checked_multiply-err (pos a) (pos b) ha hb h = ground (arith, div-lt long_max a b)
checked_multiply-err (pos a) (negsuc b) ha hb h = ground (arith, div-lt (long_max + 1) (suc b) a)
checked_multiply-err (negsuc a) (pos b) ha hb h = ground (arith, div-lt (long_max + 1) (suc a) b)
checked_multiply-err (negsuc a) (negsuc b) ha hb h = ground (arith, div-lt long_max (suc a) (suc b))

pub IsLong-cases : (z : ℤ) → IsLong z ⊎ (¬ IsLong z)
IsLong-cases z = ground arith

-- The value of a checked operation is the exact one, which long long represents.
abbrev pub Exact : ℤ → ℤ → Type 0
Exact z s = (s ≡ z) × IsLong z

-- A sum that long long cannot represent, and what is thrown for it.
abbrev pub Unrepresentable : ℤ → Error → Type 0
Unrepresentable z e = IsOverflow e × (¬ IsLong z)

-- On two long longs, checkedAdd returns the exact sum if a long long represents it, and otherwise
-- throws an overflow.
pub checked_add-Exact :
    (a b : ℤ)
    → IsLong a
    → IsLong b
    → Gives (Exact (a +ℤ b)) (Unrepresentable (a +ℤ b)) (checked_add a b)
checked_add-Exact a b ha hb = elim (IsLong-cases (a +ℤ b)) [
  | inl h ↦ rw (checked_add-ok a b ha hb h) (gives (refl, h))
  | inr h ↦ rw (checked_add-err a b ha hb h) (throws (refl, h))
]

pub checked_add-Gives :
    (a b : ℤ) → IsLong a → IsLong b → Gives (Exact (a +ℤ b)) IsOverflow (checked_add a b)
checked_add-Gives a b ha hb = Result.mono (checked_add-Exact a b ha hb) (λ s h. h) (λ e h. h.0)

-- On two long longs, checkedMultiply returns the exact product if a long long represents it, and
-- otherwise throws an overflow.
pub checked_multiply-Exact :
    (a b : ℤ)
    → IsLong a
    → IsLong b
    → Gives (Exact (a *ℤ b)) (Unrepresentable (a *ℤ b)) (checked_multiply a b)
checked_multiply-Exact a b ha hb = elim (IsLong-cases (a *ℤ b)) [
  | inl h ↦ rw (checked_multiply-ok a b ha hb h) (gives (refl, h))
  | inr h ↦ rw (checked_multiply-err a b ha hb h) (throws (refl, h))
]

pub checked_multiply-Gives :
    (a b : ℤ) → IsLong a → IsLong b → Gives (Exact (a *ℤ b)) IsOverflow (checked_multiply a b)
checked_multiply-Gives a b ha hb =
    Result.mono (checked_multiply-Exact a b ha hb) (λ s h. h) (λ e h. h.0)

pub checked_length-Gives :
    (n : ℕ) → Gives (λ z. (z ≡ pos n) × (n ≤ long_max)) IsOverflow (checked_length n)
unfolding checked_length
checked_length-Gives n = elim (Bool-cases (ltb long_max n)) [
  | inl h ↦ rw h (throws refl)
  | inr h ↦ rw h (gives (refl, ltb→le long_max n h))
]
