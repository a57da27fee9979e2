-- ===== src/Checkpointing/Replay.antt =====
-- One round of the replay in CheckpointingSegmentTree::rangeSum, against the array.
use version_aware_lazy_segtr.Prelude.{
  ℕ, ◌+◌, ◌-◌, ◌≤◌, ◌<◌, ◌≡◌, arith, inl, inr, Bool-cases, leb, leb→le, leb→lt, min, max,
}
use version_aware_lazy_segtr.Prelude.Int.{ℤ, pos, ◌+ℤ◌, ◌*ℤ◌, int_laws}
use version_aware_lazy_segtr.Prelude.Result
use version_aware_lazy_segtr.Prelude.Result.{Result, ok, Gives, gives, IsOverflow, or_fault}
use version_aware_lazy_segtr.Policy.{IsLong}
use version_aware_lazy_segtr.Policy.Arithmetic.{Exact}
use version_aware_lazy_segtr.Policy.SumAdd.Exact.{apply-Gives}
use version_aware_lazy_segtr.Size.Exact.{inclusive_length-Gives}
use version_aware_lazy_segtr.Segment.{Values, sum_from, seg_sum, add_range}
use version_aware_lazy_segtr.Segment.Sum.{
  sum_from-congr, sum_from-add, seg_sum-congr, seg_sum-add_range,
}
use version_aware_lazy_segtr.Checkpointing.{UpdateEvent, project}

-- A range of which an update touches the part from l to r.
overlap :
    (f : Values) (left right l r el er : ℕ) (v : ℤ)
    → left ≤ l
    → l ≤ r
    → r ≤ right
    → el ≤ l
    → r ≤ er
    → (left < l → el ≡ l)
    → (r < right → er ≡ r)
    → seg_sum (add_range f el er v) left right ≡ seg_sum f left right +ℤ v *ℤ pos (r + 1 - l)
overlap f left right l r el er v a b c d e g h =
    let n = add_range f el er v in
    let size : right + 1 - left ≡ (l - left) + ((r + 1 - l) + (right - r)) = omega arith in
    let at_l : left + (l - left) ≡ l = omega arith in
    let at_r : l + (r + 1 - l) ≡ r + 1 = omega arith in
    let before : sum_from n left (l - left) ≡ sum_from f left (l - left) =
      sum_from-congr n f left (l - left)
        (λ k p q. let start : el ≡ l = g (omega arith) in ground arith) in
    let behind : sum_from n (r + 1) (right - r) ≡ sum_from f (r + 1) (right - r) =
      sum_from-congr n f (r + 1) (right - r)
        (λ k p q. let end : er ≡ r = h (omega arith) in ground arith) in
    rw
      (
        size,
        sum_from-add n left (l - left) ((r + 1 - l) + (right - r)),
        sum_from-add f left (l - left) ((r + 1 - l) + (right - r)),
        at_l,
        sum_from-add n l (r + 1 - l) (right - r),
        sum_from-add f l (r + 1 - l) (right - r),
        at_r,
        before,
        behind,
        seg_sum-add_range f el er v l r d e,
      )
      (omega int_laws)

pub project-Gives :
    (f : Values) (left right : ℕ) (event : UpdateEvent) (sum : ℤ)
    → left ≤ right
    → IsLong event.value
    → Exact (seg_sum f left right) sum
    → Gives
        (Exact (seg_sum (add_range f event.left event.right event.value) left right))
        IsOverflow
        (project left right event sum)
unfolding project
project-Gives f left right event sum ordered long (exact, bounded) =
    let l = max left event.left in
    let r = min right event.right in
    elim (Bool-cases (leb l r)) [
      | inl meets ↦ rw meets (
          Result.bind (inclusive_length-Gives l r (leb→le l r meets)) λ n is.
            rw
              (
                is,
                overlap f left right l r event.left event.right event.value (omega arith)
                    (leb→le l r meets) (omega arith) (omega arith) (omega arith) (λ p. omega arith)
                    (λ p. omega arith),
                ← exact,
              )
              (apply-Gives event.value sum (r + 1 - l) long (rw exact bounded)))
      | inr apart ↦
          rw
            (
              apart,
              seg_sum-congr (add_range f event.left event.right event.value) f left right
                  (λ k p q. let far : r < l = leb→lt l r apart in ground arith),
            )
            (gives (exact, bounded))
    ]
