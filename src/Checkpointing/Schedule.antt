-- ===== src/Checkpointing/Schedule.antt =====
-- The versions of CheckpointingSegmentTree at which a checkpoint is taken, by the quotient of their
-- number.
use native.Mathlib.Nat.{div-add-mod', mod-lt, le-div_iff_mul-le, div-lt_iff_lt-mul}
use version_aware_lazy_segtr.Prelude.{
  ℕ, suc, ◌+◌, ◌*◌, ◌/◌, ◌%◌, ◌≤◌, ◌<◌, ◌≡◌, ◌==◌, ◌⊎◌, arith, inl, inr, Bool-cases, eq_of_==,
  ne_of_==,
}

-- The next number is a multiple, and its quotient is the next one, or the quotient is the same.
pub next_quotient :
    (n k : ℕ)
    → 0 < k
    → (((n + 1) % k ≡ 0) × ((n + 1) / k ≡ suc (n / k)) × (suc (n / k) * k ≡ n + 1))
      ⊎ ((0 < (n + 1) % k) × ((n + 1) / k ≡ n / k))
next_quotient n k positive =
    let q = n / k in
    let q' = (n + 1) / k in
    let here = div-add-mod' n k in
    let next = div-add-mod' (n + 1) k in
    let small = mod-lt n positive in
    let small' = mod-lt (n + 1) positive in
    let step : suc q * k ≡ q * k + k = omega arith in
    let step' : suc (suc q) * k ≡ q * k + k + k = omega arith in
    let low : q ≤ q' = (le-div_iff_mul-le positive).1 (omega arith) in
    let high : q' < suc (suc q) = (div-lt_iff_lt-mul positive).1 (omega arith) in
    elim (Bool-cases (q' == q)) [
      | inl same ↦
          let e : q' ≡ q = eq_of_== q' q same in
          let next' : q * k + (n + 1) % k ≡ n + 1 = rw (← e) next in inr (omega arith, e)
      | inr other ↦
          let off = ne_of_== q' q other in
          let e : q' ≡ suc q = omega arith in
          let next' : suc q * k + (n + 1) % k ≡ n + 1 = rw (← e) next in
          inl (omega arith, e, omega arith)
    ]

-- The nearest multiple at or before a number, among those up to a greater one.
pub nearest_multiple : (n m k : ℕ) → 0 < k → n ≤ m → (n / k ≤ m / k) × (n / k * k ≤ n)
nearest_multiple n m k positive le =
    let here = div-add-mod' n k in ((le-div_iff_mul-le positive).1 (omega arith), omega arith)
