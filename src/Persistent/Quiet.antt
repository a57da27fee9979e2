-- ===== src/Persistent/Quiet.antt =====
-- The persistent tree in a small domain, where no sum, tag or product that the code calculates can
-- leave long long: every operation returns. This file has the checked arithmetic on magnitudes.
pub mod Calm
pub mod Update
pub mod Leaves
pub mod Step
pub mod Advance
pub mod Build
pub mod Script
use version_aware_lazy_segtr.Prelude.{ℕ, zero, suc, ◌+◌, ◌-◌, ◌*◌, ◌≤◌, ◌≡◌, arith}
use version_aware_lazy_segtr.Prelude.Int.{ℤ, pos, negsuc, ◌+ℤ◌, ◌*ℤ◌, int_laws}
use version_aware_lazy_segtr.Prelude.Result.{ok}
use version_aware_lazy_segtr.Policy.{long_max, IsLong, checked_add}
use version_aware_lazy_segtr.Policy.Arithmetic.{checked_add-ok}
use version_aware_lazy_segtr.Policy.SumAdd.{apply}
use version_aware_lazy_segtr.Policy.SumAdd.Exact.{apply-ok}
use version_aware_lazy_segtr.Domain.{magnitude}
use version_aware_lazy_segtr.Domain.Envelope.{magnitude-+ℤ, IsLong-of_magnitude}

magnitude-*ℤ : (a : ℤ) (n : ℕ) → magnitude (a *ℤ pos n) ≤ magnitude a * n
unfolding ◌*ℤ◌
magnitude-*ℤ (pos a) n = ground arith
magnitude-*ℤ (negsuc a) n = ground arith

pub checked_add-small :
    (a b : ℤ) → magnitude a + magnitude b ≤ long_max → checked_add a b ≡ ok (a +ℤ b)
checked_add-small a b h =
    let sum = magnitude-+ℤ a b in
    checked_add-ok a b (IsLong-of_magnitude a (omega arith)) (IsLong-of_magnitude b (omega arith))
      (IsLong-of_magnitude (a +ℤ b) (omega arith))

pub apply-small :
    (v s : ℤ) (n : ℕ)
    → n ≤ long_max
    → magnitude v ≤ long_max
    → magnitude s + magnitude v * n ≤ long_max
    → apply v s n ≡ ok (s +ℤ v *ℤ pos n)
apply-small v s n small small_v h =
    let product = magnitude-*ℤ v n in
    let sum = magnitude-+ℤ s (v *ℤ pos n) in
    apply-ok v s n (IsLong-of_magnitude v small_v) (IsLong-of_magnitude s (omega arith)) small
      (IsLong-of_magnitude (v *ℤ pos n) (omega arith))
      (IsLong-of_magnitude (s +ℤ v *ℤ pos n) (omega arith))
