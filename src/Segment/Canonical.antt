-- ===== src/Segment/Canonical.antt =====
-- The numeric contract: every sum over a canonical segment of the array is a long long.
use version_aware_lazy_segtr.Prelude.{
  inl, inr, Bool-cases, leb, leb→le, leb→lt, ℕ, ◌+◌, ◌≤◌, ◌<◌, ◌≡◌, arith,
}
use version_aware_lazy_segtr.Policy.{IsLong}
use version_aware_lazy_segtr.Size.{midpoint}
use version_aware_lazy_segtr.Segment.{Values, seg_sum}
use version_aware_lazy_segtr.Segment.Sum.{seg_sum-single, Agree, seg_sum-congr}

-- The canonical segments below [l, r] are those that halving at the midpoint meets.
pub data Canonical (f : Values) : ℕ → ℕ → Type 0 where
  leaf : {l r : ℕ} → l ≡ r → IsLong (seg_sum f l r) → Canonical f l r
  inner :
      {l r : ℕ}
      → l < r
      → Canonical f l (midpoint l r)
      → Canonical f (midpoint l r + 1) r
      → IsLong (seg_sum f l r)
      → Canonical f l r

pub total_IsLong : {f : Values} {l r : ℕ} → Canonical f l r → IsLong (seg_sum f l r)
total_IsLong (leaf e h) = h
total_IsLong (inner lt a b h) = h

-- Only the values of the segment matter.
pub Canonical-congr : {f g : Values} {l r : ℕ} → Canonical f l r → Agree f g l r → Canonical g l r
Canonical-congr {f} {g} (leaf {l} {r} e h) same = leaf e (rw (seg_sum-congr f g l r same) at h)
Canonical-congr {f} {g} (inner {l} {r} lt a b h) same =
    inner lt (Canonical-congr a (λ k p q. same k p (omega arith)))
      (Canonical-congr b (λ k p q. same k (omega arith) q)) (rw (seg_sum-congr f g l r same) at h)

-- The leaves are segments too.
pub value_IsLong : {f : Values} {l r : ℕ} → Canonical f l r → (k : ℕ) → l ≤ k → k ≤ r → IsLong (f k)
value_IsLong {f} (leaf {l} {r} e h) k p q =
    let at : k ≡ l = omega arith in rw at (rw (← e, seg_sum-single f l) at h)
value_IsLong (inner {l} {r} lt a b h) k p q = elim (Bool-cases (leb k (midpoint l r))) [
  | inl low ↦ value_IsLong a k p (leb→le k (midpoint l r) low)
  | inr high ↦
      let above : midpoint l r < k = leb→lt k (midpoint l r) high in
      value_IsLong b k (omega arith) q
]

pub halves :
    {f : Values} {l r : ℕ}
    → Canonical f l r
    → l < r
    → Canonical f l (midpoint l r) × Canonical f (midpoint l r + 1) r
halves (leaf e h) below = absurd (omega arith)
halves (inner lt a b h) below = (a, b)
