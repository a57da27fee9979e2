-- ===== src/Tagless/History.antt =====
-- rangeSum of the trees without tags on the published versions.
use version_aware_lazy_segtr.Prelude.{
  ℕ, ◌-◌, ◌≤◌, ◌<◌, ◌≡◌, refl, inl, inr, ◌⊎◌, some, List, arith, length, get_elem?,
  get_elem?-get_or, get_or,
}
use version_aware_lazy_segtr.Prelude.Int.{ℤ}
use version_aware_lazy_segtr.Prelude.Result
use version_aware_lazy_segtr.Prelude.Result.{
  Result, Error, ok, err, Gives, throws, IsOverflow, Result-cases, or_fault,
}
use version_aware_lazy_segtr.Policy.Arithmetic.{Exact}
use version_aware_lazy_segtr.Segment.{of_list, seg_sum}
use version_aware_lazy_segtr.Segment.Sum.{within_whole}
use version_aware_lazy_segtr.BruteForce.{BruteForceArray}
use version_aware_lazy_segtr.Tagless.{
  TaglessTree, validate_initialized, validate_version, validate_range, range_sum, query,
}
use version_aware_lazy_segtr.Tagless.Query.{query-Gives}
use version_aware_lazy_segtr.Tagless.Represents.{Represents}

-- The checks that rangeSum makes of its arguments.
abbrev pub query_checks : TaglessTree → (version left right : ℕ) → Result (Unit {0})
query_checks tree version left right =
    Result.◌>>◌ (validate_initialized tree)
      (Result.◌>>◌ (validate_version version tree) (validate_range left right tree))

query_checks_facts :
    (tree : TaglessTree) (version left right : ℕ)
    → query_checks tree version left right ≡ ok tt
    → (version < length tree.roots) × (left ≤ right) × (right < tree.array_size)
unfolding validate_initialized validate_version validate_range
query_checks_facts tree version left right h = ground arith

-- The exact sum of the range in the array's version.
abbrev pub Answered : BruteForceArray → (version left right : ℕ) → ℤ → Type 0
Answered array version left right s =
    (xs : List ℤ) × (get_elem? array.versions version ≡ some xs)
    × Exact (seg_sum (of_list xs) left right) s

-- The exception of the checks, or an overflow behind them.
abbrev pub Refused : TaglessTree → (version left right : ℕ) → Error → Type 0
Refused tree version left right e =
    (query_checks tree version left right ≡ err e)
    ⊎ ((query_checks tree version left right ≡ ok tt) × IsOverflow e)

-- The steps behind the checks.
abbrev answer_steps : TaglessTree → (version left right : ℕ) → Result ℤ
answer_steps tree version left right =
    Result.◌>>=◌ (or_fault (get_elem? tree.roots version))
      λ root. query tree.array_size tree.nodes root 0 (tree.array_size - 1) left right

module _ {tree : TaglessTree} {array : BruteForceArray} (rep : Represents tree array)
    (version left right : ℕ) where
  answer_steps-Gives :
      query_checks tree version left right ≡ ok tt
      → Gives (Answered array version left right) IsOverflow (answer_steps tree version left right)
  answer_steps-Gives fits =
      let (stored, ordered, inside) = query_checks_facts tree version left right fits in
      let root = get_or tree.roots version 0 in
      let at = get_elem?-get_or tree.roots version 0 stored in
      let (xs, at', v) = rep.versions version root at in
      rw at (
        Result.mono
          (query-Gives left right tree.array_size (v.shape (omega arith)) (omega arith)
            (omega arith))
          (λ s h. (
            xs,
            at',
            rw (within_whole (of_list xs) left right (tree.array_size - 1) ordered (omega arith)) at
                h,
          ))
          (λ e h. h))

  -- rangeSum on a tagless tree in step with a brute-force array ends; it returns the exact sum of
  -- the range in the array's vector of that version, or throws the exception of its argument
  -- checks, or an overflow if they pass.
  pub tagless_range_sum_answers :
      Gives
        (Answered array version left right)
        (Refused tree version left right)
        (range_sum version left right tree)
  unfolding range_sum
  tagless_range_sum_answers = elim (Result-cases (validate_initialized tree)) [
    | inr (e, bad) ↦ rw bad (throws (inl (rw bad)))
    | inl (_, started) ↦ elim (Result-cases (validate_version version tree)) [
      | inr (e, bad) ↦ rw (started, bad) (throws (inl (rw (started, bad))))
      | inl (_, stored) ↦ elim (Result-cases (validate_range left right tree)) [
        | inr (e, bad) ↦ rw (started, stored, bad) (throws (inl (rw (started, stored, bad))))
        | inl (_, ranged) ↦
            let fits : query_checks tree version left right ≡ ok tt =
              rw (started, stored, ranged) refl in
            rw (started, stored, ranged)
              (Result.mono (answer_steps-Gives fits) (λ s h. h) (λ e is. inr (fits, is)))
      ]
    ]
  ]
