-- ===== src/Domain/Guard.antt =====
-- SumAddDomainGuard::validateRangeAdd of include/valseg/detail/sum_add_domain.hpp against the
-- numeric contract.
use version_aware_lazy_segtr.Prelude.{
  ℕ, ◌+◌, ◌-◌, ◌≤◌, ◌<◌, ◌≡◌, refl, sym, inl, inr, true, List, arith, ◌==◌, Bool-cases, length,
}
use version_aware_lazy_segtr.Prelude.Int.{ℤ}
use version_aware_lazy_segtr.Prelude.Result.{
  Result, Error, ok, err, Gives, gives, throws, IsOverflow, ◌>>=◌, ◌>>◌,
}
use version_aware_lazy_segtr.Policy.{IsLong}
use version_aware_lazy_segtr.Segment.{Values, of_list, AllLong, add_range}
use version_aware_lazy_segtr.Segment.Sum.{Agree}
use version_aware_lazy_segtr.Segment.Canonical.{Canonical, Canonical-congr}
use version_aware_lazy_segtr.Domain.{
  magnitude, max_magnitude, add_each, validate_canonical_sums, validate_range_add, saturated_add,
  proves_canonical_representability,
}
use version_aware_lazy_segtr.Domain.Exact.{
  Decides, accepts, refuses, validate_canonical_sums-Decides,
}
use version_aware_lazy_segtr.Domain.Loop.{
  Updated, Escapes, add_each-Gives, Updated-add_range, Escapes-add_range,
}
use version_aware_lazy_segtr.Domain.Envelope.{
  WithinBound, magnitude-+ℤ, envelope_Canonical, proves_small, saturated_add_exact,
  max_magnitude_bounds,
}

-- The values that an update reaches grow by the magnitude of the action at most.
add_range-WithinBound :
    (f : Values) (n b left right : ℕ) (v : ℤ)
    → WithinBound f n b
    → WithinBound (add_range f left right v) n (b + magnitude v)
add_range-WithinBound f n b left right v h k lt = ground (arith, h k lt, magnitude-+ℤ (f k) v)

-- What follows a validation whose outcome is decided.
Decides-bind :
    {A B : Type 0} {f g : Values} {n : ℕ} {P : A → Type 0} {Q : B → Type 0} {r : Result A}
    (k : A → B)
    → Decides f n P r
    → Agree f g 0 (n - 1)
    → ((a : A) → P a → Q (k a))
    → Decides g n Q (r >>= λ a. ok (k a))
Decides-bind k (accepts c p) same next = accepts (Canonical-congr c same) (next _ p)
Decides-bind k (refuses h) same next =
    refuses (λ c. h (Canonical-congr c (λ i a b. sym (same i a b))))

Decides-congr :
    {A : Type 0} {f g : Values} {n : ℕ} {P Q : A → Type 0} {r : Result A}
    → Decides f n P r
    → Agree f g 0 (n - 1)
    → ((a : A) → P a → Q a)
    → Decides g n Q r
Decides-congr (accepts c p) same next = accepts (Canonical-congr c same) (next _ p)
Decides-congr (refuses h) same next =
    refuses (λ c. h (Canonical-congr c (λ i a b. sym (same i a b))))

pub Decides-Gives :
    {A : Type 0} {f : Values} {n : ℕ} {P : A → Type 0} {r : Result A}
    → Decides f n P r
    → Gives (λ a. Canonical f 0 (n - 1) × P a) IsOverflow r
Decides-Gives (accepts c p) = gives (c, p)
Decides-Gives (refuses h) = throws refl

-- What the traversal hands over: the current values, each a long long.
abbrev pub Materialized : Values → ℕ → List ℤ → Type 0
Materialized f n ys = (length ys ≡ n) × AllLong ys × Agree (of_list ys) f 0 (n - 1)

module _ (left right : ℕ) (v : ℤ) (hv : IsLong v) (ordered : left ≤ right) where
  module _ (xs : List ℤ) (all : AllLong xs) (inside : right < length xs) where
    -- The steps behind the traversal.
    exact_steps :
        {r : Result (List ℤ)}
        → Gives (Updated xs (right + 1 - left) left v) (Escapes xs (right + 1 - left) left v) r
        → Decides
            (add_range (of_list xs) left right v)
            (length xs)
            (WithinBound (add_range (of_list xs) left right v) (length xs))
            (r >>= λ updated. validate_canonical_sums updated >> ok (max_magnitude updated))
    exact_steps (throws h) = rw h.0 (refuses (Escapes-add_range xs left right v ordered inside h))
    exact_steps (gives {a = ys} u) =
        let same = Updated-add_range xs ys left right v ordered u in
        Decides-bind (λ _. max_magnitude ys)
          (rw u.0 at (validate_canonical_sums-Decides ys u.1 (rw u.0 (omega arith))))
          (λ i a b. same i) (λ a p k lt. rw (← same k) (max_magnitude_bounds ys k (rw u.0 lt)))

  module _ (f : Values) (n b : ℕ) (bounded : WithinBound f n b) (inside : right < n) where
    scalar_proof :
        proves_canonical_representability (saturated_add b (magnitude v)) n ≡ true
        → Canonical (add_range f left right v) 0 (n - 1)
          × WithinBound (add_range f left right v) n (saturated_add b (magnitude v))
    scalar_proof e =
        let exact = saturated_add_exact b (magnitude v) n (omega arith) e in
        let grown = rw (← exact) at (add_range-WithinBound f n b left right v bounded) in
        (
          envelope_Canonical (add_range f left right v) (saturated_add b (magnitude v)) n grown
              (proves_small (saturated_add b (magnitude v)) n (omega arith) e) (omega arith),
          grown,
        )

    Agree-updated :
        (ys : List ℤ)
        → Agree (of_list ys) f 0 (n - 1)
        → Agree (add_range (of_list ys) left right v) (add_range f left right v) 0 (n - 1)
    Agree-updated ys same k p q = rw (same k p q)

    exact_Decides :
        (ys : List ℤ)
        → Materialized f n ys
        → Decides (add_range f left right v) n (WithinBound (add_range f left right v) n) (
            add_each (right + 1 - left) left v ys >>= λ updated.
            validate_canonical_sums updated >> ok (max_magnitude updated))
    exact_Decides ys (len, all, same) =
        let steps =
          exact_steps ys all (rw len inside)
            (add_each-Gives (right + 1 - left) left v ys all hv (rw len (omega arith))) in
        Decides-congr (rw len at steps) (Agree-updated ys same)
          (λ m h k lt. rw (← Agree-updated ys same k (omega arith) (omega arith)) (h k lt))

    -- With a valid range, a long long value, the current values at hand and a bound on their
    -- magnitudes, the guard accepts a range addition exactly if every canonical sum of the updated
    -- array is a long long, by the scalar bound or by the exact traversal, and hands back a bound
    -- on the updated values; otherwise it throws an overflow.
    pub validate_range_add-Decides :
        (ys : List ℤ)
        → Materialized f n ys
        → Decides
            (add_range f left right v)
            n
            (WithinBound (add_range f left right v) n)
            (validate_range_add b n left right v (ok ys))
    unfolding validate_range_add
    validate_range_add-Decides ys m =
        elim (Bool-cases (proves_canonical_representability (saturated_add b (magnitude v)) n)) [
          | inl e ↦ rw e (accepts (scalar_proof e).0 (scalar_proof e).1)
          | inr e ↦
              let size : (length ys == n) ≡ true = ground arith in rw (e, size) (exact_Decides ys m)
        ]

    throwing :
        (d : Error)
        → IsOverflow d
        → Gives
            (λ b'.
              Canonical (add_range f left right v) 0 (n - 1)
              × WithinBound (add_range f left right v) n b')
            IsOverflow
            (validate_range_add b n left right v (err d))
    unfolding validate_range_add
    throwing d h =
        elim (Bool-cases (proves_canonical_representability (saturated_add b (magnitude v)) n)) [
          | inl e ↦ rw e (gives (scalar_proof e))
          | inr e ↦ rw e (throws h)
        ]

    -- Also where the traversal itself may throw, what the guard accepts keeps the contract.
    pub validate_range_add-Gives :
        {m : Result (List ℤ)}
        → Gives (Materialized f n) IsOverflow m
        → Gives
            (λ b'.
              Canonical (add_range f left right v) 0 (n - 1)
              × WithinBound (add_range f left right v) n b')
            IsOverflow
            (validate_range_add b n left right v m)
    validate_range_add-Gives (gives {a = ys} p) = Decides-Gives (validate_range_add-Decides ys p)
    validate_range_add-Gives (throws {e = d} h) = throwing d h
