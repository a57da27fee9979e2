-- ===== src/Persistent/Quiet/Step.antt =====
-- rangeAdd of the persistent tree in a small domain returns, and leaves the domain a step larger.
use version_aware_lazy_segtr.Prelude.{ℕ, ◌+◌, ◌-◌, ◌*◌, ◌≤◌, ◌<◌, ◌≡◌, ◌∙◌, arith, some, List, []}
use native.Mathlib.Nat.{mul-le-mul_left, mul-le-mul_right, le_trans}
use version_aware_lazy_segtr.Prelude.Int.{ℤ, pos, ◌+ℤ◌, +ℤ-zero}
use version_aware_lazy_segtr.Prelude.Result
use version_aware_lazy_segtr.Prelude.Result.{Result, ok}
use version_aware_lazy_segtr.Policy.{long_max}
use version_aware_lazy_segtr.Segment.{Values, add_range}
use version_aware_lazy_segtr.Domain.{magnitude, validate_range_add}
use version_aware_lazy_segtr.Domain.Exact.{Decides-ok}
use version_aware_lazy_segtr.Domain.Guard.{Materialized, validate_range_add-Decides}
use version_aware_lazy_segtr.Domain.Envelope.{WithinBound, envelope_Canonical, IsLong-of_magnitude}
use version_aware_lazy_segtr.Arena.{back}
use version_aware_lazy_segtr.Persistent.{PersistentLazySegmentTree, current_leaves}
use version_aware_lazy_segtr.Persistent.Leaves.{materialize-Gives}
use version_aware_lazy_segtr.Persistent.Quiet.Calm.{Calm, top, Calm-Holds}
use version_aware_lazy_segtr.Persistent.Quiet.Update.{add_range-Bounded}
use version_aware_lazy_segtr.Persistent.Quiet.Leaves.{materialize-returns}

-- A tree whose newest version is small.
pub record IsQuiet (w t : ℕ) (tree : PersistentLazySegmentTree) : Type 0 where
  pub values : Values
  pub root : ℕ
  pub some_element : 0 < tree.array_size
  pub sized : tree.array_size ≤ long_max
  pub root_there : back tree.roots ≡ some root
  pub calm : Calm tree.nodes w t root values 0 (tree.array_size - 1)
  pub bounded : WithinBound values tree.array_size tree.numeric_domain

module _ {w t : ℕ} {tree : PersistentLazySegmentTree} (q : IsQuiet w t tree) (b left right : ℕ)
    (v : ℤ) (small_v : magnitude v ≤ b) (ordered : left ≤ right) (inside : right < tree.array_size)
    (room : tree.array_size * (w + b + t) ≤ long_max) where
  less_room : (x : ℕ) → x ≤ w + b + t → tree.array_size * x ≤ long_max
  less_room x le = le_trans (mul-le-mul_left tree.array_size le) room

  one_room : w + b + t ≤ long_max
  one_room =
      let one = mul-le-mul_right {m = 1} {n = tree.array_size} (w + b + t) q.some_element in
      omega (arith, room)

  leaves-Materialized :
      (ys : List ℤ) × (current_leaves tree ≡ ok ys) × Materialized q.values tree.array_size ys
  unfolding current_leaves
  leaves-Materialized =
      let n = tree.array_size in
      let (ys, run) =
        materialize-returns n w t (less_room (w + t) (omega arith)) n (pos 0) [] q.calm
          (omega arith) (omega (arith, q.some_element)) (omega (arith, q.some_element))
          (whole_tags n q.some_element) in
      let held =
        Calm-Holds n w t (less_room w (omega arith)) (omega (arith, one_room))
          (omega (arith, q.some_element)) q.calm in
      let (zs, e, l) =
        Result.value
          (materialize-Gives n (pos 0) [] held (omega arith) (omega (arith, q.some_element))
            (omega arith))
          run in
      (
        ys,
        rw q.root_there run,
        rw e (
          omega (arith, l.size, q.some_element),
          l.long,
          λ k p r. l.value k (omega (arith, l.size, q.some_element)) ∙ here q.values k,
        ),
      )
    where
      whole_tags : (n : ℕ) → 0 < n → magnitude (pos 0) + (n - 1 + 1 - 0) * t ≤ n * t
      whole_tags n h = let e : n - 1 + 1 - 0 ≡ n = omega arith in rw e (omega arith)

      here : (f : Values) (k : ℕ) → f (0 + k) +ℤ pos 0 ≡ f k
      here f k = let e : 0 + k ≡ k = omega arith in rw e (+ℤ-zero (f k))

  updated_bound : WithinBound (add_range q.values left right v) tree.array_size (w + b)
  updated_bound k lt =
      add_range-Bounded tree.array_size w t b q.sized room v small_v left right q.values 0
        (tree.array_size - 1) (top q.calm).2.values_small k (omega arith) (omega arith)

  pub guard-returns :
      (bound : ℕ) × (validate_range_add tree.numeric_domain tree.array_size left right v
          (current_leaves tree)
        ≡ ok bound)
      × WithinBound (add_range q.values left right v) tree.array_size bound
  guard-returns =
      let (ys, run, listed) = leaves-Materialized in
      let long = IsLong-of_magnitude v (omega (arith, one_room)) in
      let contract =
        envelope_Canonical (add_range q.values left right v) (w + b) tree.array_size updated_bound
          (less_room (w + b) (omega arith)) q.some_element in
      rw run (
        Decides-ok
          (validate_range_add-Decides left right v long ordered q.values tree.array_size
            tree.numeric_domain q.bounded inside ys listed)
          contract)
