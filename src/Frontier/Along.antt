-- ===== src/Frontier/Along.antt =====
-- What closedFormFrontier of include/valseg/frontier.hpp counts along one boundary.
use version_aware_lazy_segtr.Prelude.{
  ℕ, ◌+◌, ◌-◌, ◌≤◌, ◌<◌, ◌≡◌, refl, inl, inr, arith, Bool, ltb, if◌then◌else◌,
}
use version_aware_lazy_segtr.Prelude.Result.{ok}
use version_aware_lazy_segtr.Size.{midpoint, size_max}
use version_aware_lazy_segtr.Frontier.{
  nodes_containing_both, decomposition_along_boundary, counts_child, along, counts_of,
  FrontierCounts,
}
use version_aware_lazy_segtr.Frontier.Run.{checked_size_add-ok}
use version_aware_lazy_segtr.Frontier.Boundary.{along_path}
use version_aware_lazy_segtr.Frontier.Paths.{one, hangs_left, hangs_right}
use version_aware_lazy_segtr.Frontier.Loops.{containing_loop-along, boundary_loop-along, counted_at}

pub nodes_containing_both-along :
    (n a b : ℕ) (apart : a < b)
    → b < n
    → along_path one a b apart 0 (n - 1) ≤ size_max
    → nodes_containing_both n a b ≡ ok (along_path one a b apart 0 (n - 1))
unfolding nodes_containing_both
nodes_containing_both-along n a b apart inside fits =
    containing_loop-along n 0 (n - 1) a b 1 (along_path one a b apart 0 (n - 1)) apart (omega arith)
      (omega arith) (omega arith) (omega arith) fits

pub along_left :
    (n left right : ℕ) (before : left - 1 < left)
    → left ≤ right
    → right < n
    → along_path (hangs_left left right) (left - 1) left before 0 (n - 1) ≤ size_max
    → decomposition_along_boundary n (left - 1) left (ltb (right + 1) n) (right + 1)
      ≡ ok (along_path (hangs_left left right) (left - 1) left before 0 (n - 1))
unfolding decomposition_along_boundary counts_child
along_left n left right before ordered inside fits =
    let e : 0 + along_path (hangs_left left right) (left - 1) left before 0 (n - 1)
        ≡ along_path (hangs_left left right) (left - 1) left before 0 (n - 1) =
      omega arith in
    rw e at (
      boundary_loop-along n (left - 1) left (ltb (right + 1) n) (right + 1) (hangs_left left right)
        (left - 1) left before (omega arith) (inl (refl, refl)) agree n 0 (n - 1) 0 (omega arith)
        (omega arith) (omega arith) (omega arith) (omega arith))
  where
    agree :
        (l r : ℕ)
        → l ≤ left - 1
        → left ≤ r
        → r < n
        → hangs_left left right l r
          ≡ counted_at n
              (left - 1)
              left
              (ltb (right + 1) n)
              (right + 1)
              (hangs_left left right)
              (left - 1)
              left
              before
              (omega arith)
              (inl (refl, refl))
              l
              r
    agree l r p q s =
        let m = midpoint l r in
        let between : (l ≤ m) × (m < r) = (omega arith, omega arith) in ground arith

pub along_right :
    (n left right : ℕ) (behind : right < right + 1)
    → left ≤ right
    → right + 1 < n
    → along_path (hangs_right left right) right (right + 1) behind 0 (n - 1) ≤ size_max
    → decomposition_along_boundary n
        (right + 1)
        right
        (ltb 0 left)
        (if ltb 0 left then left - 1 else 0)
      ≡ ok (along_path (hangs_right left right) right (right + 1) behind 0 (n - 1))
unfolding decomposition_along_boundary counts_child
along_right n left right behind ordered inside fits =
    let other = if ltb 0 left then left - 1 else 0 in
    let e : 0 + along_path (hangs_right left right) right (right + 1) behind 0 (n - 1)
        ≡ along_path (hangs_right left right) right (right + 1) behind 0 (n - 1) =
      omega arith in
    rw e at (
      boundary_loop-along n (right + 1) right (ltb 0 left) other (hangs_right left right) right
        (right + 1) behind (omega arith) (inr (refl, refl)) agree n 0 (n - 1) 0 (omega arith)
        (omega arith) (omega arith) (omega arith) (omega arith))
  where
    agree :
        (l r : ℕ)
        → l ≤ right
        → right + 1 ≤ r
        → r < n
        → hangs_right left right l r
          ≡ counted_at n
              (right + 1)
              right
              (ltb 0 left)
              (if ltb 0 left then left - 1 else 0)
              (hangs_right left right)
              right
              (right + 1)
              behind
              (omega arith)
              (inr (refl, refl))
              l
              r
    agree l r p q s =
        let m = midpoint l r in
        let between : (l ≤ m) × (m < r) = (omega arith, omega arith) in ground arith

pub along-counts :
    (n first second outer inner : ℕ) (exists : Bool) (other s h : ℕ) (c : FrontierCounts)
    → nodes_containing_both n first second ≡ ok s
    → decomposition_along_boundary n outer inner exists other ≡ ok h
    → c.partial + s ≤ size_max
    → c.decomposition + h ≤ size_max
    → along n first second outer inner exists other c
      ≡ ok (counts_of (c.partial + s) (c.decomposition + h))
unfolding along
along-counts n first second outer inner exists other s h c run_s run_h fits_s fits_h =
    rw
      (
        run_s,
        checked_size_add-ok c.partial s fits_s,
        run_h,
        checked_size_add-ok c.decomposition h fits_h,
      )
      refl
