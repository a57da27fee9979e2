-- ===== src/Frontier/AllRanges.antt =====
-- frontierSum of include/valseg/frontier.hpp over allRangesCounter.
use version_aware_lazy_segtr.Prelude.{
  ℕ, zero, suc, ◌+◌, ◌-◌, ◌*◌, ◌≤◌, ◌<◌, ◌≡◌, refl, ◌||◌, inl, inr, List, [], ◌∷◌, ◌++◌, false,
  arith, ltb, leb, ◌==◌, length,
}
use version_aware_lazy_segtr.Prelude.Result
use version_aware_lazy_segtr.Prelude.Result.{
  Result, ok, err, Gives, gives, IsOverflow, Result-cases,
}
use version_aware_lazy_segtr.Size.{triangular_number, size_max}
use version_aware_lazy_segtr.Frontier.Sums.{Counts, frontier_within}
use version_aware_lazy_segtr.Frontier.Visits.{
  AllValid, sum_of_visits, sum_of_visits-ok, frontier_sum-visits,
}
use version_aware_lazy_segtr.Frontier.Over.{over, meets, contains, over-bounds}
use version_aware_lazy_segtr.Frontier.Family.{
  Counter, count_all, check_interval, all_ranges_counter, frontier_sum,
}
use version_aware_lazy_segtr.Size.Exact.{triangular_number-exact, checked_size_multiply-exact}
use version_aware_lazy_segtr.Frontier.Ranges.{
  ending_at, all_ranges, length-all_ranges, meets_all, contains_all,
}

module _ (n total : ℕ) (small : n < size_max) (counted : triangular_number n ≡ ok total) where
  total_twice : (2 * total ≡ n * (n + 1)) × (total ≤ size_max)
  total_twice = Result.value (triangular_number-exact n small) counted

  -- A triangular number that is part of the total.
  part_of_total :
      (k : ℕ)
      → k < n
      → k * (k + 1) ≤ n * (n + 1)
      → (t : ℕ) × (triangular_number k ≡ ok t) × (2 * t ≡ k * (k + 1))
  part_of_total k below part =
      let (twice, fits) = total_twice in
      elim (Result.Gives-cases (triangular_number-exact k (omega arith))) [
        | inl (t, run, (twice_t, _)) ↦ (t, run, twice_t)
        | inr (e, run, (_, over_max)) ↦ absurd (omega arith)
      ]

  count_all-Counts : Counts n (all_ranges n) (count_all n total)
  unfolding count_all check_interval
  count_all-Counts l r le inside =
      let j = n - 1 - r in
      let (twice, fits) = total_twice in
      let same_n : r + 1 + j ≡ n = omega arith in
      let same_n' : r + (n - r) ≡ n = omega arith in
      let met = rw same_n at (meets_all l r le j) in
      let covered = rw same_n' at (contains_all l r le (n - r)) in
      let (few, most) = over-bounds l r (all_ranges n) le in
      let all = length-all_ranges n in
      let (before, run_before, twice_before) = part_of_total l (omega arith) (omega arith) in
      let (behind, run_behind, twice_behind) = part_of_total j (omega arith) (omega arith) in
      let legal : (ltb r l || leb n r) ≡ false = ground arith in
      elim (Result.Gives-cases (checked_size_multiply-exact (l + 1) (n - r))) [
        | inr (e, run, (_, over_max)) ↦ absurd (omega arith)
        | inl (c, run, (ec, _)) ↦
            let e1 : total - before - behind ≡ over (meets l r) (all_ranges n) = omega arith in
            let e2 : c ≡ over (contains l r) (all_ranges n) = omega arith in
            rw (legal, run_before, run_behind, run, e1, e2) refl
      ]

AllValid-append :
    (n : ℕ) (xs ys : List (ℕ × ℕ)) → AllValid n xs → AllValid n ys → AllValid n (xs ++ ys)
AllValid-append n [] ys p q = q
AllValid-append n ((a, b) ∷ xs) ys (p, p', ps) q = (p, p', AllValid-append n xs ys ps q)

ending_at-AllValid : (n right k : ℕ) → right < n → k ≤ right + 1 → AllValid n (ending_at right k)
ending_at-AllValid n right zero p q = tt
ending_at-AllValid n right (suc k) p q =
    (omega arith, p, ending_at-AllValid n right k p (omega arith))

all_ranges-AllValid : (n k : ℕ) → k ≤ n → AllValid n (all_ranges k)
all_ranges-AllValid n zero p = tt
all_ranges-AllValid n (suc k) p =
    AllValid-append n (ending_at k (suc k)) (all_ranges k)
      (ending_at-AllValid n k (suc k) (omega arith) (omega arith))
      (all_ranges-AllValid n k (omega arith))

-- Below the greatest std::size_t, if allRangesCounter returns a counter, frontierSum over it
-- returns the sum of the visited nodes that frontierCounts gives for all ranges one by one, or
-- throws an overflow if std::size_t does not hold that sum.
pub frontier_sum-all_ranges :
    (n : ℕ) (counter : Counter)
    → n < size_max
    → all_ranges_counter n ≡ ok counter
    → (total : ℕ) × (sum_of_visits n (all_ranges n) ≡ ok total)
      × Gives (λ s. s ≡ total) (λ e. IsOverflow e × (size_max < total)) (frontier_sum n counter)
unfolding all_ranges_counter
frontier_sum-all_ranges zero counter small made = cc
frontier_sum-all_ranges (suc n) counter small made =
    elim (Result-cases (triangular_number (suc n))) [
      | inr (e, bad) ↦
          let nonzero : (suc n == 0) ≡ false = ground arith in
          let thrown = rw (bad, nonzero) at made in cc
      | inl (total, run) ↦
          let ranges = all_ranges (suc n) in
          let visits = over (frontier_within (suc n)) ranges in
          let summed =
            sum_of_visits-ok (suc n) ranges (omega arith)
              (all_ranges-AllValid (suc n) (suc n) (omega arith)) in
          let nonzero : (suc n == 0) ≡ false = ground arith in
          let same = Result.ok_injective (rw (run, nonzero) at made) in
          let (twice, fits) = total_twice (suc n) total small run in
          let few : length ranges ≤ size_max = omega (arith, length-all_ranges (suc n)) in
          (
            visits,
            summed,
            rw (← same) (
                frontier_sum-visits (suc n) ranges (count_all (suc n) total) visits (omega arith)
                  (omega arith) few (count_all-Counts (suc n) total small run) summed),
          )
    ]
