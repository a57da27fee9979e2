-- ===== src/Domain/Exact.antt =====
-- validateCanonicalSums of include/valseg/detail/sum_add_domain.hpp against the numeric contract.
use version_aware_lazy_segtr.Prelude.{
  ℕ, zero, suc, ◌+◌, ◌-◌, ◌≤◌, ◌<◌, ◌≡◌, refl, inl, inr, true, false, List, arith, ◌==◌, Bool-cases,
  eq_of_==, ne_of_==, length, get_elem?-get_or, sym, ◌∙◌,
}
use version_aware_lazy_segtr.Prelude.Int.{ℤ, pos}
use version_aware_lazy_segtr.Prelude.Result
use version_aware_lazy_segtr.Prelude.Result.{
  Result, Error, overflow_error, ok, err, Gives, gives, throws, IsOverflow, ◌>>=◌, or_fault,
}
use version_aware_lazy_segtr.Policy.Arithmetic.{checked_add-Gives, checked_add-ok}
use version_aware_lazy_segtr.Size.{midpoint}
use version_aware_lazy_segtr.Segment.{Values, of_list, AllLong, seg_sum}
use version_aware_lazy_segtr.Segment.Sum.{seg_sum-single, seg_sum-split}
use version_aware_lazy_segtr.Segment.Canonical.{Canonical, leaf, inner, total_IsLong}
use version_aware_lazy_segtr.Domain.{canonical_sum, validate_canonical_sums}

-- One segment: the exact sum if the contract holds on it, and otherwise an overflow.
canonical_sum-Gives :
    (fuel : ℕ) (xs : List ℤ) (l r : ℕ)
    → AllLong xs
    → l ≤ r
    → r < length xs
    → r - l < fuel
    → Gives
        (λ s. (s ≡ seg_sum (of_list xs) l r) × Canonical (of_list xs) l r)
        IsOverflow
        (canonical_sum fuel xs l r)
unfolding canonical_sum
canonical_sum-Gives zero xs l r all le lt enough = absurd (omega arith)
canonical_sum-Gives (suc fuel) xs l r all le lt enough = elim (Bool-cases (l == r)) [
  | inl same ↦
      let e : l ≡ r = eq_of_== l r same in
      let single : seg_sum (of_list xs) l r ≡ of_list xs l =
        rw (← e) (seg_sum-single (of_list xs) l) in
      rw (same, get_elem?-get_or xs l (pos 0) (omega arith))
        (gives (sym single, leaf e (rw single (all l (omega arith)))))
  | inr more ↦
      let below : l < r = ground (arith, ne_of_== l r more) in
      let m = midpoint l r in
      rw more (
        Result.bind (canonical_sum-Gives fuel xs l m all (omega arith) (omega arith) (omega arith))
          λ a (ea, ca).
            Result.bind
              (canonical_sum-Gives fuel xs (m + 1) r all (omega arith) (omega arith) (omega arith))
              λ b (eb, cb).
                rw (ea, eb)
                  (Result.mono (checked_add-Gives _ _ (total_IsLong ca) (total_IsLong cb))
                    (λ s (es, hs).
                      let split = seg_sum-split (of_list xs) l m r (omega arith) (omega arith) in
                      (rw split es, inner below ca cb (rw split hs)))
                    (λ e h. h)))
]

-- Where the contract holds, the validation succeeds with the exact sum.
pub canonical_sum-ok :
    (fuel : ℕ) (xs : List ℤ) {l r : ℕ}
    → Canonical (of_list xs) l r
    → r < length xs
    → r - l < fuel
    → canonical_sum fuel xs l r ≡ ok (seg_sum (of_list xs) l r)
unfolding canonical_sum
canonical_sum-ok zero xs c lt enough = absurd (omega arith)
canonical_sum-ok (suc fuel) xs (leaf {l} {r} e h) lt enough =
    let same : (l == r) ≡ true = ground arith in
    rw (same, get_elem?-get_or xs l (pos 0) (omega arith), ← e, seg_sum-single (of_list xs) l)
canonical_sum-ok (suc fuel) xs (inner {l} {r} below ca cb h) lt enough =
    let more : (l == r) ≡ false = ground arith in
    let split = seg_sum-split (of_list xs) l (midpoint l r) r (omega arith) (omega arith) in
    rw
      (
        more,
        canonical_sum-ok fuel xs ca (omega arith) (omega arith),
        canonical_sum-ok fuel xs cb (omega arith) (omega arith),
        split,
      )
      (checked_add-ok _ _ (total_IsLong ca) (total_IsLong cb) (rw split at h))

-- The outcome of a validation of the array f on the indices below n: it succeeds exactly if the
-- numeric contract holds, and an overflow is its one exception.
pub data Decides {A : Type 0} (f : Values) (n : ℕ) (P : A → Type 0) : Result A → Type 0 where
  accepts : {a : A} → Canonical f 0 (n - 1) → P a → Decides f n P (ok a)
  refuses : ¬ Canonical f 0 (n - 1) → Decides f n P (err overflow_error)

-- Where the contract holds, the value is at hand.
pub Decides-ok :
    {A : Type 0} {f : Values} {n : ℕ} {P : A → Type 0} {r : Result A}
    → Decides f n P r
    → Canonical f 0 (n - 1)
    → (a : A) × (r ≡ ok a) × P a
Decides-ok (accepts {a} c p) h = (a, refl, p)
Decides-ok (refuses out) h = absurd (out h)

-- Where it fails, an overflow is thrown.
pub Decides-err :
    {A : Type 0} {f : Values} {n : ℕ} {P : A → Type 0} {r : Result A}
    → Decides f n P r
    → ¬ Canonical f 0 (n - 1)
    → r ≡ err overflow_error
Decides-err (accepts c p) out = absurd (out c)
Decides-err (refuses h) out = refl

module _ (xs : List ℤ) (all : AllLong xs) (some_element : 0 < length xs) where
  canonical_sum-Decides :
      {r : Result ℤ}
      → canonical_sum (length xs) xs 0 (length xs - 1) ≡ r
      → Gives
          (λ s.
            (s ≡ seg_sum (of_list xs) 0 (length xs - 1)) × Canonical (of_list xs) 0 (length xs - 1))
          IsOverflow
          r
      → Decides (of_list xs) (length xs) (λ u. Unit {0}) (r >>= λ s. ok tt)
  canonical_sum-Decides e (gives (es, c)) = accepts c tt
  canonical_sum-Decides e (throws h) = rw h (
      refuses
        λ c. absurd_of_ok (sym e ∙ canonical_sum-ok (length xs) xs c (omega arith) (omega arith)))
    where
      absurd_of_ok : {d : Error} {s : ℤ} → err d ≡ ok s → ⊥
      absurd_of_ok h = cc

  -- Over a vector of long long with an element, validateCanonicalSums succeeds exactly if every
  -- canonical sum is a long long, and otherwise throws an overflow.
  pub validate_canonical_sums-Decides :
      Decides (of_list xs) (length xs) (λ u. Unit {0}) (validate_canonical_sums xs)
  unfolding validate_canonical_sums
  validate_canonical_sums-Decides =
      let full : (length xs == 0) ≡ false = ground arith in
      rw full (
        canonical_sum-Decides refl (
          canonical_sum-Gives (length xs) xs 0 (length xs - 1) all (omega arith) (omega arith)
            (omega arith)))

-- A vector that meets the contract is accepted, the empty one included.
pub accepted :
    (xs : List ℤ)
    → AllLong xs
    → (0 < length xs → Canonical (of_list xs) 0 (length xs - 1))
    → validate_canonical_sums xs ≡ ok tt
unfolding validate_canonical_sums
accepted xs all contract = elim (Bool-cases (length xs == 0)) [
  | inl none_left ↦ rw none_left
  | inr more ↦
      let some_element : 0 < length xs = ground (arith, ne_of_== (length xs) 0 more) in
      (Decides-ok (validate_canonical_sums-Decides xs all some_element) (contract some_element)).1
]
