-- ===== src/Frontier/Visits.antt =====
-- The visited nodes of frontierCounts in include/valseg/frontier.hpp, summed over the ranges of a
-- family.
use version_aware_lazy_segtr.Prelude.{
  ℕ, ◌+◌, ◌≤◌, ◌<◌, ◌≡◌, refl, sym, inl, inr, List, [], ◌∷◌, arith, length,
}
use version_aware_lazy_segtr.Prelude.Result
use version_aware_lazy_segtr.Prelude.Result.{
  Result, ok, err, Gives, gives, IsOverflow, ◌>>=◌, Result-cases,
}
use version_aware_lazy_segtr.Size.{size_max}
use version_aware_lazy_segtr.Frontier.Family.{Counter, frontier_sum}
use version_aware_lazy_segtr.Frontier.{frontier_counts, visited}
use version_aware_lazy_segtr.Frontier.Run.{
  frontier_counts-counts, frontier_counts-valid, visited-frontier,
}
use version_aware_lazy_segtr.Frontier.Over.{over}
use version_aware_lazy_segtr.Frontier.Sums.{frontier_within, Counts, frontier_sum-over}

-- The code's own count for each range of a family, summed.
unfoldable pub sum_of_visits : ℕ → List (ℕ × ℕ) → Result ℕ
unfolding frontier_counts visited
sum_of_visits n [] = ok 0
sum_of_visits n ((left, right) ∷ rest) = do
  counts ← frontier_counts n left right
  one ← visited counts
  others ← sum_of_visits n rest
  ok (one + others)

pub sum_of_visits-over :
    (n : ℕ) (family : List (ℕ × ℕ)) (total : ℕ)
    → n ≤ size_max
    → sum_of_visits n family ≡ ok total
    → total ≡ over (frontier_within n) family
unfolding sum_of_visits
sum_of_visits-over n [] total small h = Result.ok_injective (sym h)
sum_of_visits-over n ((left, right) ∷ rest) total small h =
    elim (Result-cases (frontier_counts n left right)) [
      | inr (e, bad) ↦ let thrown = rw bad at h in cc
      | inl (c, counted) ↦
          let (ordered, inside) = frontier_counts-valid n left right c counted in
          let counts = frontier_counts-counts n left right ordered inside small in
          let one = visited-frontier n left right ordered inside small in
          elim (Result-cases (sum_of_visits n rest)) [
            | inr (e, bad) ↦ let thrown = rw (counts, one, bad) at h in cc
            | inl (others, summed) ↦
                let same = sum_of_visits-over n rest others small summed in
                let all = Result.ok_injective (rw (counts, one, summed) at h) in omega arith
          ]
    ]

-- Every range of a family is a range of the array.
abbrev pub AllValid : ℕ → List (ℕ × ℕ) → Type 0
AllValid n [] = Unit {0}
AllValid n ((left, right) ∷ rest) = (left ≤ right) × (right < n) × AllValid n rest

pub sum_of_visits-ok :
    (n : ℕ) (family : List (ℕ × ℕ))
    → n ≤ size_max
    → AllValid n family
    → sum_of_visits n family ≡ ok (over (frontier_within n) family)
unfolding sum_of_visits
sum_of_visits-ok n [] small valid = refl
sum_of_visits-ok n ((left, right) ∷ rest) small (ordered, inside, valid) =
    let counts = frontier_counts-counts n left right ordered inside small in
    let one = visited-frontier n left right ordered inside small in
    rw (counts, one, sum_of_visits-ok n rest small valid) refl

-- Over a counter that counts a family of valid ranges, the loop returns the sum of their frontiers.
pub frontier_sum-visits :
    (n : ℕ) (family : List (ℕ × ℕ)) (counter : Counter) (total : ℕ)
    → 0 < n
    → n ≤ size_max
    → length family ≤ size_max
    → Counts n family counter
    → sum_of_visits n family ≡ ok total
    → Gives (λ s. s ≡ total) (λ e. IsOverflow e × (size_max < total)) (frontier_sum n counter)
frontier_sum-visits n family counter total positive fits small counted summed =
    let same = sum_of_visits-over n family total fits summed in
    rw same (frontier_sum-over n family counter counted small positive)
