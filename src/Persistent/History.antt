-- ===== src/Persistent/History.antt =====
-- rangeSum of PersistentLazySegmentTree on the published versions.
use version_aware_lazy_segtr.Prelude.{
  ℕ, ◌-◌, ◌≤◌, ◌<◌, ◌≡◌, refl, ◌∙◌, inl, inr, ◌⊎◌, some, List, arith, length, get_elem?,
  get_elem?-get_or, get_or,
}
use version_aware_lazy_segtr.Prelude.Int.{ℤ, pos, +ℤ-zero}
use version_aware_lazy_segtr.Prelude.Result
use version_aware_lazy_segtr.Prelude.Result.{
  Result, Error, ok, err, Gives, gives, throws, IsOverflow, Result-cases, overflow_error, or_fault,
}
use version_aware_lazy_segtr.Policy.Arithmetic.{Exact}
use version_aware_lazy_segtr.Segment.{Values, of_list, seg_sum, plus}
use version_aware_lazy_segtr.Segment.Sum.{seg_sum-congr, within_whole}
use version_aware_lazy_segtr.BruteForce.{BruteForceArray}
use version_aware_lazy_segtr.Persistent.{
  PersistentLazySegmentTree, validate_initialized, validate_version, validate_range, range_sum,
  query,
}
use version_aware_lazy_segtr.Persistent.Query.{answer, query-Gives}
use version_aware_lazy_segtr.Persistent.Represents.{Represents}

-- The checks that rangeSum makes of its arguments.
abbrev pub query_checks : PersistentLazySegmentTree → (version left right : ℕ) → Result (Unit {0})
query_checks tree version left right =
    Result.◌>>◌ (validate_initialized tree)
      (Result.◌>>◌ (validate_version version tree) (validate_range left right tree))

pub query_checks_facts :
    (tree : PersistentLazySegmentTree) (version left right : ℕ)
    → query_checks tree version left right ≡ ok tt
    → (version < length tree.roots) × (left ≤ right) × (right < tree.array_size)
unfolding validate_initialized validate_version validate_range
query_checks_facts tree version left right h = ground arith

-- The exact sum of the range in the array's version.
abbrev pub Answered : BruteForceArray → (version left right : ℕ) → ℤ → Type 0
Answered array version left right s =
    (xs : List ℤ) × (get_elem? array.versions version ≡ some xs)
    × Exact (seg_sum (of_list xs) left right) s

-- The exception of the checks, or an overflow behind them.
abbrev pub Refused : PersistentLazySegmentTree → (version left right : ℕ) → Error → Type 0
Refused tree version left right e =
    (query_checks tree version left right ≡ err e)
    ⊎ ((query_checks tree version left right ≡ ok tt) × IsOverflow e)

-- The steps behind the checks.
unfoldable pub answer_steps : PersistentLazySegmentTree → (version left right : ℕ) → Result ℤ
answer_steps tree version left right =
    Result.◌>>=◌ (or_fault (get_elem? tree.roots version))
      λ root. query tree.array_size tree.nodes root 0 (tree.array_size - 1) left right (pos 0)

checks_first :
    {A : Type 0} (a b c : Result (Unit {0})) (k : Result A)
    → Result.◌>>◌ a (Result.◌>>◌ b (Result.◌>>◌ c k))
      ≡ Result.◌>>◌ (Result.◌>>◌ a (Result.◌>>◌ b c)) k
checks_first (ok u) (ok w) c k = refl
checks_first (ok u) (err e) c k = refl
checks_first (err e) b c k = refl

pub range_sum-checks :
    (tree : PersistentLazySegmentTree) (version left right : ℕ)
    → range_sum version left right tree
      ≡ Result.◌>>◌ (query_checks tree version left right) (answer_steps tree version left right)
unfolding range_sum answer_steps
range_sum-checks tree version left right =
    checks_first (validate_initialized tree) (validate_version version tree)
      (validate_range left right tree) _

-- At the root nothing is inherited, and the range lies in the array.
pub answer_at_root :
    (f : Values) (left right n : ℕ)
    → left ≤ right
    → right ≤ n
    → answer left right f (pos 0) 0 n ≡ seg_sum f left right
answer_at_root f left right n p q =
    within_whole (plus f (pos 0)) left right n p q
    ∙ seg_sum-congr (plus f (pos 0)) f left right (λ k a b. +ℤ-zero (f k))

module _ {tree : PersistentLazySegmentTree} {array : BruteForceArray} (rep : Represents tree array)
    (version left right : ℕ) where
  answer_steps-Gives :
      query_checks tree version left right ≡ ok tt
      → Gives (Answered array version left right) IsOverflow (answer_steps tree version left right)
  unfolding answer_steps
  answer_steps-Gives fits =
      let (stored, ordered, inside) = query_checks_facts tree version left right fits in
      let root = get_or tree.roots version 0 in
      let at = get_elem?-get_or tree.roots version 0 stored in
      let (xs, at', v) = rep.versions version root at in
      rw at (
        Result.mono
          (query-Gives left right tree.array_size (pos 0) (v.shape (omega arith)) (omega arith)
            (omega arith) (omega arith))
          (λ s h. (
            xs,
            at',
            rw (answer_at_root (of_list xs) left right (tree.array_size - 1) ordered (omega arith))
                at h,
          ))
          (λ e h. h))

  -- rangeSum on a tree in step with a brute-force array ends; it returns the exact sum of the
  -- range in the array's vector of that version, or throws the exception of its argument checks,
  -- or an overflow if they pass.
  pub range_sum_answers :
      Gives
        (Answered array version left right)
        (Refused tree version left right)
        (range_sum version left right tree)
  range_sum_answers =
      rw (range_sum-checks tree version left right)
        (elim (Result-cases (query_checks tree version left right)) [
          | inl (u, fits) ↦
              rw fits (Result.mono (answer_steps-Gives fits) (λ s h. h) (λ e is. inr (fits, is)))
          | inr (e, bad) ↦ rw bad (throws (inl bad))
        ])
