-- ===== src/Frontier/Loops.antt =====
-- The two loops of include/valseg/frontier.hpp that follow a path from the root.
use version_aware_lazy_segtr.Prelude.{
  ℕ, zero, suc, ◌+◌, ◌-◌, ◌≤◌, ◌<◌, ◌≡◌, refl, ap, ◌&&◌, ◌||◌, not, ◌⊎◌, inl, inr, true, false,
  arith, Bool, Bool-cases, ltb, leb, if◌then◌else◌, ◌==◌, leb→le, leb→lt,
}
use version_aware_lazy_segtr.Prelude.Result.{ok}
use version_aware_lazy_segtr.Size.{midpoint, size_max, checked_size_add}
use version_aware_lazy_segtr.Frontier.{containing_loop, boundary_loop, counts_child}
use version_aware_lazy_segtr.Frontier.Run.{checked_size_add-ok}
use version_aware_lazy_segtr.Frontier.Boundary.{along_path, along_path-off, along_path-on}
use version_aware_lazy_segtr.Frontier.Paths.{one}

-- The count so far stands for the node itself.
pub containing_loop-along :
    (fuel l r a b count k : ℕ) (apart : a < b)
    → l ≤ a
    → b ≤ r
    → r - l < fuel
    → count + along_path one a b apart l r ≡ k + 1
    → k ≤ size_max
    → containing_loop fuel l r a b count ≡ ok k
unfolding containing_loop
containing_loop-along zero l r a b count k apart p q enough total fits = absurd (omega arith)
containing_loop-along (suc fuel) l r a b count k apart p q enough total fits =
    let m = midpoint l r in
    let inner : (l == r) ≡ false = ground arith in
    let here = along_path-on one a b apart l r (omega arith) (ground arith) in
    elim (Bool-cases (leb b m)) [
      | inl on_left ↦
          let reach = leb→le b m on_left in
          let first : leb a m ≡ true = ground arith in
          let off = along_path-off one a b apart (m + 1) r (ground arith) in
          let below = along_path-on one a b apart l m (omega arith) (ground arith) in
          let step = checked_size_add-ok count 1 (omega arith) in
          rw (inner, first, on_left, step)
            (containing_loop-along fuel l m a b (count + 1) k apart p reach (omega arith)
              (omega arith) fits)
      | inr off_left ↦
          let past = leb→lt b m off_left in
          let second : ltb m b ≡ true = ground arith in
          let off = along_path-off one a b apart l m (ground arith) in
          elim (Bool-cases (leb a m)) [
            | inl split ↦
                let off' = along_path-off one a b apart (m + 1) r (ground arith) in
                let first : ltb m a ≡ false = ground arith in
                let e : count ≡ k = omega arith in rw (inner, split, off_left, first, e) refl
            | inr on_right ↦
                let after = leb→lt a m on_right in
                let first : ltb m a ≡ true = ground arith in
                let below = along_path-on one a b apart (m + 1) r (omega arith) (ground arith) in
                let step = checked_size_add-ok count 1 (omega arith) in
                rw (inner, on_right, first, second, step)
                  (containing_loop-along fuel (m + 1) r a b (count + 1) k apart (omega arith) q
                    (omega arith) (omega arith) fits)
          ]
    ]

-- Whether a segment contains the other boundary, as the loop tests it.
abbrev pub contains_other : Bool → (other l r : ℕ) → Bool
contains_other exists other l r = exists && (leb l other && leb other r)

-- A child that counts, or does not.
child_counted :
    (child : Bool) (count k : ℕ)
    → k ≡ (if child then 1 else 0)
    → count + k ≤ size_max
    → (if child then checked_size_add count 1 else ok count) ≡ ok (count + k)
child_counted true count k e fits = rw e (checked_size_add-ok count 1 (omega arith))
child_counted false count k e fits = let same : count ≡ count + 0 = omega arith in rw e (ap ok same)

module _ (n outer inner : ℕ) (exists : Bool) (other : ℕ) (w : ℕ → ℕ → ℕ) (p s : ℕ) (apart : p < s)
    (next : s ≡ p + 1) (ends : ((outer ≡ p) × (inner ≡ s)) ⊎ ((outer ≡ s) × (inner ≡ p))) where
  -- What the loop counts at a segment: the child at the split, or the one away from the boundary.
  abbrev pub counted_at : ℕ → ℕ → ℕ
  counted_at l r =
      let m = midpoint l r in
      if p == m
      then (if contains_other exists other l r then 0 else 1)
      else (if counts_child (contains_other exists other l r) (leb inner m) outer inner
          then 1
          else 0)

  pub boundary_loop-along :
      ((l r : ℕ) → l ≤ p → s ≤ r → r < n → w l r ≡ counted_at l r)
      → (fuel l r count : ℕ) → l ≤ p
      → s ≤ r
      → r < n
      → r - l < fuel
      → count + along_path w p s apart l r ≤ size_max
      → boundary_loop fuel l r outer inner exists other count
        ≡ ok (count + along_path w p s apart l r)
  unfolding boundary_loop
  boundary_loop-along agree zero l r count before behind inside enough fits = absurd (omega arith)
  boundary_loop-along agree (suc fuel) l r count before behind inside enough fits =
      let m = midpoint l r in
      let here = along_path-on w p s apart l r (omega arith) (ground arith) in
      let counted = agree l r before behind inside in
      elim (Bool-cases (p == m)) [
        | inl split ↦
            let differ : ((leb inner m && not (leb outer m)) || (leb outer m && not (leb inner m)))
                ≡ true =
              ground arith in
            let off = along_path-off w p s apart l m (ground arith) in
            let off' = along_path-off w p s apart (m + 1) r (ground arith) in
            let at_split = rw split at counted in
            let e : count + along_path w p s apart l r
                ≡ count + (if contains_other exists other l r then 0 else 1) =
              omega arith in
            rw (differ, e) refl
        | inr apart_from ↦
            let same : ((leb inner m && not (leb outer m)) || (leb outer m && not (leb inner m)))
                ≡ false =
              ground arith in
            let counted' = rw apart_from at counted in
            let child =
              child_counted
                (counts_child (contains_other exists other l r) (leb inner m) outer inner) count
                (w l r) counted' (omega arith) in
            elim (Bool-cases (leb inner m)) [
              | inl on_left ↦
                  let reach = leb→le inner m on_left in
                  let off = along_path-off w p s apart (m + 1) r (ground arith) in
                  let e : count + w l r + along_path w p s apart l m
                      ≡ count + along_path w p s apart l r =
                    omega arith in
                  let rest =
                    boundary_loop-along agree fuel l m (count + w l r) before (ground arith)
                      (omega arith) (omega arith) (omega arith) in
                  rw (same, child, on_left, rest, e) refl
              | inr on_right ↦
                  let past = leb→lt inner m on_right in
                  let off = along_path-off w p s apart l m (ground arith) in
                  let e : count + w l r + along_path w p s apart (m + 1) r
                      ≡ count + along_path w p s apart l r =
                    omega arith in
                  let rest =
                    boundary_loop-along agree fuel (m + 1) r (count + w l r) (ground arith) behind
                      inside (omega arith) (omega arith) in
                  rw (same, child, on_right, rest, e) refl
            ]
      ]
