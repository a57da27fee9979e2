-- ===== src/Persistent/Quiet/Leaves.antt =====
-- materialize of the persistent tree over a small version, and the guard that it is handed to: both
-- return.
use version_aware_lazy_segtr.Prelude.{
  ℕ, zero, suc, ◌+◌, ◌-◌, ◌*◌, ◌≤◌, ◌<◌, ◌≡◌, refl, true, false, arith, ◌==◌, List, [], ◌∷◌, ◌++◌,
}
use native.Mathlib.Nat.{mul-le-mul_right}
use version_aware_lazy_segtr.Prelude.Int.{ℤ, pos, ◌+ℤ◌, ◌*ℤ◌}
use version_aware_lazy_segtr.Prelude.Result.{ok}
use version_aware_lazy_segtr.Policy.{long_max}
use version_aware_lazy_segtr.Size.{midpoint}
use version_aware_lazy_segtr.Segment.{Values}
use version_aware_lazy_segtr.Domain.{magnitude}
use version_aware_lazy_segtr.Domain.Envelope.{magnitude-+ℤ}
use version_aware_lazy_segtr.Persistent.Write.{Arena}
use version_aware_lazy_segtr.Persistent.Read.{materialize}
use version_aware_lazy_segtr.Segment.Sum.{seg_sum-single}
use version_aware_lazy_segtr.Persistent.Quiet.{checked_add-small, apply-small}
use version_aware_lazy_segtr.Persistent.Quiet.Calm.{Calm, leaf, inner}

-- A tag that was accumulated leaves room for one more at each level below.
pub materialize-returns :
    (n w t : ℕ)
    → n * (w + t) ≤ long_max
    → (fuel : ℕ) {nodes : Arena} {i l r : ℕ} {f : Values} (acc : ℤ) (values : List ℤ)
    → Calm nodes w t i f l r
    → l ≤ r
    → r < n
    → r - l < fuel
    → magnitude acc + (r + 1 - l) * t ≤ n * t
    → (out : List ℤ) × (materialize fuel nodes i l r acc values ≡ ok out)
unfolding materialize
materialize-returns n w t room zero acc values h le inside enough small = absurd (omega arith)
materialize-returns n w t room (suc fuel) {f} acc values (leaf {l} {r} {n = m} at e x) le inside
      enough small =
    let same : (l == r) ≡ true = ground arith in
    let one = mul-le-mul_right {m = 1} {n = n} w (omega arith) in
    let here : m.sum ≡ f l = rw (x.exact, ← e) (seg_sum-single f l) in
    let value_small = x.values_small l (omega arith) le in
    let fits = apply-small acc m.sum 1 (omega arith) (omega arith) (rw here (omega arith)) in
    (values ++ ((m.sum +ℤ acc *ℤ pos 1) ∷ []), rw (at, same, fits) refl)
materialize-returns n w t room (suc fuel) acc values (inner {l} {r} {n = m} at lt a b same x) le
      inside enough small =
    let more : (l == r) ≡ false = ground arith in
    let mid = midpoint l r in
    let once = mul-le-mul_right {m = 1} {n = r + 1 - l} t (omega arith) in
    let fits = checked_add-small acc m.lazy (omega (arith, x.tag_small)) in
    let next = magnitude-+ℤ acc m.lazy in
    let len_left = mul-le-mul_right {m = mid + 1 - l} {n = r - l} t (omega arith) in
    let len_right = mul-le-mul_right {m = r + 1 - (mid + 1)} {n = r - l} t (omega arith) in
    let level : (r + 1 - l) * t ≡ (r - l) * t + t =
      let longer : r + 1 - l ≡ (r - l) + 1 = omega arith in rw longer (omega arith) in
    let (out, run) =
      materialize-returns n w t room fuel (acc +ℤ m.lazy) values a (omega arith) (omega arith)
        (omega arith) (omega (arith, x.tag_small)) in
    let (out', run') =
      materialize-returns n w t room fuel (acc +ℤ m.lazy) out b (omega arith) inside (omega arith)
        (omega (arith, x.tag_small)) in
    (out', rw (at, more, fits, run) run')
