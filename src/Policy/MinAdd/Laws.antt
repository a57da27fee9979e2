-- ===== src/Policy/MinAdd/Laws.antt =====
-- MinAddPolicy of include/valseg/policy.hpp: an action and the minimum of two segments.
use version_aware_lazy_segtr.Prelude.{
  ℕ, ◌+◌, ◌<◌, ◌≡◌, inl, inr, ◌⊎◌, true, false, arith, ◌==◌, Bool-cases,
}
use version_aware_lazy_segtr.Prelude.Int.{ℤ, ◌+ℤ◌, ltb_ℤ, +ℤ_parts}
use version_aware_lazy_segtr.Prelude.Result
use version_aware_lazy_segtr.Prelude.Result.{Result, ok, Gives, IsOverflow}
use version_aware_lazy_segtr.Policy.{IsLong}
use version_aware_lazy_segtr.Policy.Arithmetic.{checked_add-Gives, checked_add-ok}
use version_aware_lazy_segtr.Policy.MinAdd.{combine, apply}

-- A translation keeps the order.
pub combine-add : (x y f : ℤ) → combine (x +ℤ f) (y +ℤ f) ≡ combine x y +ℤ f
unfolding combine
combine-add x y f = elim (Bool-cases (ltb_ℤ x y)) [
  | inl less ↦
      let moved : ltb_ℤ (x +ℤ f) (y +ℤ f) ≡ true = ground (arith, +ℤ_parts x f, +ℤ_parts y f) in
      rw (less, moved)
  | inr more ↦
      let moved : ltb_ℤ (x +ℤ f) (y +ℤ f) ≡ false = ground (arith, +ℤ_parts x f, +ℤ_parts y f) in
      rw (more, moved)
]

pub combine_either : (x y : ℤ) → (combine x y ≡ x) ⊎ (combine x y ≡ y)
unfolding combine
combine_either x y = elim (Bool-cases (ltb_ℤ x y)) [
  | inl less ↦ inl (rw less)
  | inr more ↦ inr (rw more)
]

-- On long longs and two segments with elements: if a range addition on either minimum does not
-- overflow, it does not overflow on the smaller one, and gives the smaller of the two results.
pub apply-combine :
    (f x y : ℤ) (lx ly : ℕ) (x' y' : ℤ)
    → IsLong f
    → IsLong x
    → IsLong y
    → 0 < lx
    → 0 < ly
    → apply f x lx ≡ ok x'
    → apply f y ly ≡ ok y'
    → apply f (combine x y) (lx + ly) ≡ ok (combine x' y')
unfolding apply
apply-combine f x y lx ly x' y' hf hx hy p q run_x run_y =
    let none_x : (lx == 0) ≡ false = ground arith in
    let none_y : (ly == 0) ≡ false = ground arith in
    let none : (lx + ly == 0) ≡ false = ground arith in
    let (ex, kx) = Result.value (checked_add-Gives x f hx hf) (rw none_x at run_x) in
    let (ey, ky) = Result.value (checked_add-Gives y f hy hf) (rw none_y at run_y) in
    let moved = combine-add x y f in
    rw (none, ex, ey, moved)
      (elim (combine_either x y) [
        | inl e ↦ rw e (checked_add-ok x f hx hf kx)
        | inr e ↦ rw e (checked_add-ok y f hy hf ky)
      ])
