-- ===== src/Policy/SumAdd/Exact.antt =====
-- SumAddPolicy::apply of include/valseg/policy.hpp against the integers.
use version_aware_lazy_segtr.Prelude.{ℕ, ◌≤◌, ◌≡◌, arith}
use version_aware_lazy_segtr.Prelude.Int.{ℤ, pos, ◌+ℤ◌, ◌*ℤ◌}
use version_aware_lazy_segtr.Prelude.Result
use version_aware_lazy_segtr.Prelude.Result.{Result, ok, Gives, gives, throws, IsOverflow}
use version_aware_lazy_segtr.Policy.{long_max, IsLong, checked_length}
use version_aware_lazy_segtr.Policy.Arithmetic.{
  Exact, checked_add-Gives, checked_multiply-Gives, checked_length-Gives, checked_add-ok,
  checked_multiply-ok,
}
use version_aware_lazy_segtr.Policy.SumAdd.{apply}

-- On long longs, SumAddPolicy::apply returns the exact aggregate plus the action once for each
-- element of the segment, which a long long represents, or throws an overflow.
pub apply-Gives :
    (v s : ℤ) (n : ℕ)
    → IsLong v
    → IsLong s
    → Gives (Exact (s +ℤ v *ℤ pos n)) IsOverflow (apply v s n)
unfolding apply
apply-Gives v s n hv hs = Result.bind (checked_length-Gives n) λ z (ez, small). rw ez (
    Result.bind (checked_multiply-Gives v (pos n) hv (omega arith))
      λ p (ep, hp). rw ep (checked_add-Gives s (v *ℤ pos n) hs hp))

-- An action that fits, on a segment that fits, is applied.
pub apply-ok :
    (v s : ℤ) (n : ℕ)
    → IsLong v
    → IsLong s
    → n ≤ long_max
    → IsLong (v *ℤ pos n)
    → IsLong (s +ℤ v *ℤ pos n)
    → apply v s n ≡ ok (s +ℤ v *ℤ pos n)
unfolding apply checked_length
apply-ok v s n hv hs hn hp h = ground (
  arith,
  checked_multiply-ok v (pos n) hv (omega arith) hp,
  checked_add-ok s (v *ℤ pos n) hs hp h,
)
