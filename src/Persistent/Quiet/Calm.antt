-- ===== src/Persistent/Quiet/Calm.antt =====
-- A version of the persistent tree whose values and tags are small: below every node, the values are
-- within w and the tags within t.
use version_aware_lazy_segtr.Prelude.{
  ℕ, ◌+◌, ◌-◌, ◌*◌, ◌≤◌, ◌<◌, ◌≡◌, sym, ◌∙◌, arith, some, get_elem?,
}
use native.Mathlib.Nat.{mul-le-mul_right, le_trans}
use version_aware_lazy_segtr.Policy.{long_max}
use version_aware_lazy_segtr.Size.{midpoint}
use version_aware_lazy_segtr.Segment.{Values, seg_sum, plus}
use version_aware_lazy_segtr.Segment.Sum.{Agree, seg_sum-congr}
use version_aware_lazy_segtr.Domain.{magnitude}
use version_aware_lazy_segtr.Domain.Envelope.{sum_from_bound, IsLong-of_magnitude}
use version_aware_lazy_segtr.Arena.{Extends, Extends-get}
use version_aware_lazy_segtr.Persistent.Write.{Node, Arena}
use version_aware_lazy_segtr.Persistent.Holds.{IsExact, Holds}

abbrev pub Bounded : Values → ℕ → ℕ → ℕ → Type 0
Bounded f w l r = (k : ℕ) → l ≤ k → k ≤ r → magnitude (f k) ≤ w

-- One node: its sum is exact.
pub record IsSmall (n : Node) (w t : ℕ) (f : Values) (l r : ℕ) : Type 0 where
  pub exact : n.sum ≡ seg_sum f l r
  pub values_small : Bounded f w l r
  pub tag_small : magnitude n.lazy ≤ t

pub data Calm (nodes : Arena) (w t : ℕ) : ℕ → Values → ℕ → ℕ → Type 0 where
  leaf :
      {i l r : ℕ} {f : Values} {n : Node}
      → get_elem? nodes i ≡ some n
      → l ≡ r
      → IsSmall n w t f l r
      → Calm nodes w t i f l r
  inner :
      {i l r : ℕ} {f g : Values} {n : Node}
      → get_elem? nodes i ≡ some n
      → l < r
      → Calm nodes w t n.left_child g l (midpoint l r)
      → Calm nodes w t n.right_child g (midpoint l r + 1) r
      → Agree f (plus g n.lazy) l r
      → IsSmall n w t f l r
      → Calm nodes w t i f l r

abbrev pub top :
    {nodes : Arena} {w t i l r : ℕ} {f : Values}
    → Calm nodes w t i f l r
    → (n : Node) × (get_elem? nodes i ≡ some n) × IsSmall n w t f l r
top (leaf {n} at e x) = (n, at, x)
top (inner {n} at lt a b same x) = (n, at, x)

-- The sum of a segment, by its length.
pub seg_sum-small :
    (f : Values) (w l r : ℕ) → Bounded f w l r → magnitude (seg_sum f l r) ≤ (r + 1 - l) * w
seg_sum-small f w l r small = sum_from_bound f w l (r + 1 - l) (λ k p q. small k p (omega arith))

IsSmall-mono :
    {n : Node} {w w' t t' l r : ℕ} {f : Values}
    → w ≤ w'
    → t ≤ t'
    → IsSmall n w t f l r
    → IsSmall n w' t' f l r
IsSmall-mono p q x = record {
  exact = x.exact;
  values_small = λ k a b. le_trans (x.values_small k a b) p;
  tag_small = le_trans x.tag_small q;
}

-- A version stays small when the arena and the bounds grow.
pub Calm-mono :
    {nodes nodes' : Arena} {w w' t t' i l r : ℕ} {f : Values}
    → Extends nodes nodes'
    → w ≤ w'
    → t ≤ t'
    → Calm nodes w t i f l r
    → Calm nodes' w' t' i f l r
Calm-mono x p q (leaf {i} {n} at e small) = leaf (Extends-get i n x at) e (IsSmall-mono p q small)
Calm-mono x p q (inner {i} {n} at lt a b same small) =
    inner (Extends-get i n x at) lt (Calm-mono x p q a) (Calm-mono x p q b) same
      (IsSmall-mono p q small)

IsSmall-congr :
    {n : Node} {w t l r : ℕ} {f g : Values}
    → Agree f g l r
    → IsSmall n w t f l r
    → IsSmall n w t g l r
IsSmall-congr {w} {l} {r} {f} {g} same x = record {
  exact = rw (← seg_sum-congr f g l r same) x.exact;
  values_small = λ k p q. rw (← same k p q) (x.values_small k p q);
  tag_small = x.tag_small;
}

-- Only the values of the segment matter.
pub Calm-congr :
    {nodes : Arena} {w t i l r : ℕ} {f g : Values}
    → Agree f g l r
    → Calm nodes w t i f l r
    → Calm nodes w t i g l r
Calm-congr same (leaf at e x) = leaf at e (IsSmall-congr same x)
Calm-congr same (inner at lt a b agree x) =
    inner at lt a b (λ k p q. sym (same k p q) ∙ agree k p q) (IsSmall-congr same x)

-- A segment of an array of n elements has less room than the array.
pub part_small : (n w l r : ℕ) → r < n → n * w ≤ long_max → (r + 1 - l) * w ≤ long_max
part_small n w l r inside small =
    le_trans (mul-le-mul_right {m = r + 1 - l} {n = n} w (omega arith)) small

-- In an array of n elements, a small version is one that the tree stands for.
module _ (n w t : ℕ) (small : n * w ≤ long_max) (tags : t ≤ long_max) where
  IsSmall-IsExact :
      {m : Node} {l r : ℕ} {f : Values} → r < n → IsSmall m w t f l r → IsExact m f l r
  IsSmall-IsExact {m} {l} {r} {f} inside x = record {
    sum_exact = x.exact;
    sum_long = rw x.exact (
        IsLong-of_magnitude (seg_sum f l r)
          (le_trans (seg_sum-small f w l r x.values_small) (part_small n w l r inside small)));
    lazy_long = IsLong-of_magnitude m.lazy (le_trans x.tag_small tags);
  }

  pub Calm-Holds :
      {nodes : Arena} {i l r : ℕ} {f : Values}
      → r < n
      → Calm nodes w t i f l r
      → Holds nodes i f l r
  Calm-Holds inside (leaf at e x) = Holds.leaf at e (IsSmall-IsExact inside x)
  Calm-Holds inside (inner at lt a b same x) =
      Holds.inner at lt (Calm-Holds (omega arith) a) (Calm-Holds inside b) same
        (IsSmall-IsExact inside x)
