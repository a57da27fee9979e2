-- ===== src/BruteForce/Oracle.antt =====
-- The operations of BruteForceArray against exact sums and the numeric contract.
use version_aware_lazy_segtr.Prelude.{
  ℕ, zero, suc, ◌+◌, ◌-◌, ◌≤◌, ◌<◌, ◌≡◌, sym, ap, ◌∙◌, inl, inr, some, List, [], ◌∷◌, ◌++◌, arith,
  length, length-append, get_elem?, get_elem?-get_or, lt_length_of_get_elem?,
}
use version_aware_lazy_segtr.Prelude.Int.{ℤ, pos, ◌+ℤ◌, +ℤ-zero, +ℤ_assoc, zero-+ℤ}
use version_aware_lazy_segtr.Prelude.Result
use version_aware_lazy_segtr.Prelude.Result.{
  Error, Result-cases, ok_injective, Result, ok, err, overflow_error, Gives, gives, throws,
  IsOverflow, Gives-cases,
}
use version_aware_lazy_segtr.Policy.{IsLong}
use version_aware_lazy_segtr.Policy.Arithmetic.{Exact, checked_add-Gives}
use version_aware_lazy_segtr.Segment.{of_list, AllLong, sum_from, seg_sum, add_range}
use version_aware_lazy_segtr.Segment.Canonical.{Canonical, Canonical-congr}
use version_aware_lazy_segtr.Domain.{add_each, validate_canonical_sums}
use version_aware_lazy_segtr.Domain.Exact.{validate_canonical_sums-Decides, Decides-ok, Decides-err}
use version_aware_lazy_segtr.Domain.Loop.{
  Updated, add_each-Gives, Updated-add_range, Escapes-add_range,
}
use version_aware_lazy_segtr.BruteForce.{
  BruteForceArray, range_add, sum_each, range_sum, validate_version, validate_range,
}

sum_each-Gives :
    (n i : ℕ) (acc : ℤ) (xs : List ℤ)
    → AllLong xs
    → IsLong acc
    → i + n ≤ length xs
    → Gives (Exact (acc +ℤ sum_from (of_list xs) i n)) IsOverflow (sum_each n i acc xs)
unfolding sum_each sum_from
sum_each-Gives zero i acc xs all ha lt = gives (sym (+ℤ-zero acc), rw (+ℤ-zero acc) ha)
sum_each-Gives (suc n) i acc xs all ha lt =
    let e : i + 1 ≡ suc i = omega arith in
    rw (get_elem?-get_or xs i (pos 0) (omega arith), e)
      (Result.bind (checked_add-Gives acc (of_list xs i) ha (all i (omega arith))) λ s (es, hs).
        rw es (
          rw (← +ℤ_assoc acc (of_list xs i) (sum_from (of_list xs) (suc i) n))
            (sum_each-Gives n (suc i) (acc +ℤ of_list xs i) xs all hs (omega arith))))

module _ (array : BruteForceArray) (version left right : ℕ) (xs : List ℤ)
    (stored : get_elem? array.versions version ≡ some xs) (all : AllLong xs)
    (ordered : left ≤ right) (inside : right < length xs) where
  version_valid : validate_version array version ≡ ok tt
  unfolding validate_version
  version_valid = ground (arith, lt_length_of_get_elem? array.versions version xs stored)

  range_valid : validate_range array version left right ≡ ok tt
  unfolding validate_range
  range_valid = rw stored (ground arith)

  -- On a stored version of long longs and a valid range, the brute-force array returns the exact
  -- sum of the range, or throws an overflow.
  range_sum-Gives :
      Gives
        (Exact (seg_sum (of_list xs) left right))
        IsOverflow
        (range_sum array version left right)
  unfolding range_sum
  range_sum-Gives =
      rw (version_valid, range_valid, stored, ← zero-+ℤ (seg_sum (of_list xs) left right))
        (sum_each-Gives (right + 1 - left) left (pos 0) xs all (omega arith) (omega arith))

  module _ (v : ℤ) (hv : IsLong v) where
    Updated-copy :
        Canonical (add_range (of_list xs) left right v) 0 (length xs - 1)
        → (ys : List ℤ) × (add_each (right + 1 - left) left v xs ≡ ok ys)
          × Updated xs (right + 1 - left) left v ys
    Updated-copy c =
        elim (Gives-cases (add_each-Gives (right + 1 - left) left v xs all hv (omega arith))) [
          | inl (ys, e, u) ↦ (ys, e, u)
          | inr (d, e, out) ↦ absurd (Escapes-add_range xs left right v ordered inside out c)
        ]

    -- On a stored version of long longs and a valid range, an update of the brute-force array by a
    -- long long that keeps the numeric contract appends the updated copy of its base version and
    -- returns its number.
    pub range_add-ok :
        Canonical (add_range (of_list xs) left right v) 0 (length xs - 1)
        → (ys : List ℤ) × (range_add array version left right v
            ≡ ok (record array { versions = array.versions ++ (ys ∷ []) }, length array.versions))
          × Updated xs (right + 1 - left) left v ys
    unfolding range_add
    range_add-ok c =
        let (ys, e, u) = Updated-copy c in
        let copy =
          Canonical-congr c (λ k p q. sym (Updated-add_range xs ys left right v ordered u k)) in
        let (_, valid, _) =
          Decides-ok (validate_canonical_sums-Decides ys u.1 (rw u.0 (omega arith)))
            (rw u.0 copy) in
        let last : length (array.versions ++ (ys ∷ [])) - 1 ≡ length array.versions =
          omega (arith, length-append array.versions (ys ∷ [])) in
        (ys, rw (version_valid, range_valid, stored, e, valid, last), u)

    -- An update that breaks the numeric contract throws an overflow.
    pub range_add-err :
        ¬ Canonical (add_range (of_list xs) left right v) 0 (length xs - 1)
        → range_add array version left right v ≡ err overflow_error
    unfolding range_add
    range_add-err broken =
        elim (Gives-cases (add_each-Gives (right + 1 - left) left v xs all hv (omega arith))) [
          | inl (ys, e, u) ↦
              let invalid =
                Decides-err (validate_canonical_sums-Decides ys u.1 (rw u.0 (omega arith))) (λ c.
                  broken (
                    Canonical-congr (rw u.0 at c)
                      (λ k p q. Updated-add_range xs ys left right v ordered u k))) in
              rw (version_valid, range_valid, stored, e, invalid)
          | inr (d, e, out) ↦ rw (version_valid, range_valid, stored, e, out.0)
        ]

    -- An update that returns has appended the updated copy of its base version.
    pub range_add_appended :
        {array' : BruteForceArray} {number : ℕ}
        → range_add array version left right v ≡ ok (array', number)
        → (ys : List ℤ) × (array' ≡ record array { versions = array.versions ++ (ys ∷ []) })
          × (number ≡ length array.versions)
          × Updated xs (right + 1 - left) left v ys
    unfolding range_add
    range_add_appended {array'} {number} run =
        elim (Gives-cases (add_each-Gives (right + 1 - left) left v xs all hv (omega arith))) [
          | inl (ys, e, u) ↦ elim (Result-cases (validate_canonical_sums ys)) [
            | inl (done, valid) ↦
                let same =
                  ok_injective (rw (version_valid, range_valid, stored, e, valid) at run) in
                let last : length (array.versions ++ (ys ∷ [])) - 1 ≡ length array.versions =
                  omega (arith, length-append array.versions (ys ∷ [])) in
                (ys, sym (ap (λ p. p.0) same), sym (ap (λ p. p.1) same) ∙ last, u)
            | inr (d, invalid) ↦
                absurd_run (rw (version_valid, range_valid, stored, e, invalid) at run)
          ]
          | inr (d, e, out) ↦ absurd_run (rw (version_valid, range_valid, stored, e) at run)
        ]
      where
        absurd_run : {A B : Type 0} {d : Error} {a : A} → ◌≡◌ {A = Result A} (err d) (ok a) → B
        absurd_run h = cc
