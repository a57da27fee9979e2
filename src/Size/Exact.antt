-- ===== src/Size/Exact.antt =====
-- The functions of include/valseg/detail/checked_size.hpp against the natural numbers.
use version_aware_lazy_segtr.Prelude.{
  ℕ, zero, suc, ◌+◌, ◌-◌, ◌*◌, ◌/◌, ◌%◌, ◌^◌, ◌≤◌, ◌<◌, ◌≡◌, refl, ap, ◌∙◌, ◌⊎◌, eq_of_==, ne_of_==,
  inl, inr, false, arith, ltb, Bool-cases, ltb→lt, ltb→le, ◌==◌, if◌then◌else◌,
}
use native.Mathlib.Nat.{div-lt_iff_lt-mul, le-div_iff_mul-le, pow-suc, pow-zero}
use version_aware_lazy_segtr.Prelude.Result
use version_aware_lazy_segtr.Prelude.Result.{
  Result, Error, ok, err, overflow_error, Gives, gives, throws, IsOverflow,
}
use version_aware_lazy_segtr.Size.{
  size_max, checked_size_add, checked_size_multiply, triangular_number, height_loop, tree_height,
  inclusive_length, canonical_node_count,
}
use version_aware_lazy_segtr.Policy.{long_max}

pub inclusive_length-Gives :
    (l r : ℕ) → l ≤ r → Gives (λ n. n ≡ r + 1 - l) IsOverflow (inclusive_length l r)
unfolding inclusive_length
inclusive_length-Gives l r h =
    let ordered : ltb r l ≡ false = ground arith in
    elim (Bool-cases (ltb (size_max - (r - l)) 1)) [
      | inl over ↦ rw (ordered, over) (throws refl)
      | inr fits ↦ rw (ordered, fits) (gives (omega arith))
    ]

-- The node count of the canonical tree, for every number of leaves that fits a long long.
pub canonical_node_count-ok :
    (n : ℕ) → n ≤ long_max → canonical_node_count n ≡ ok (if n == 0 then 0 else 2 * n - 1)
unfolding canonical_node_count
canonical_node_count-ok n h = ground arith

-- A size that std::size_t cannot hold, and what is thrown for it.
abbrev pub Oversized : ℕ → Error → Type 0
Oversized n e = IsOverflow e × (size_max < n)

pub checked_size_add-exact :
    (a b : ℕ)
    → a ≤ size_max
    → Gives (λ n. (n ≡ a + b) × (n ≤ size_max)) (Oversized (a + b)) (checked_size_add a b)
unfolding checked_size_add
checked_size_add-exact a b h = elim (Bool-cases (ltb (size_max - a) b)) [
  | inl over ↦ let p = ltb→lt (size_max - a) b over in rw over (throws (refl, omega arith))
  | inr fits ↦ let p = ltb→le (size_max - a) b fits in rw fits (gives (refl, omega arith))
]

pub checked_size_multiply-exact :
    (a b : ℕ)
    → Gives (λ n. (n ≡ a * b) × (n ≤ size_max)) (Oversized (a * b)) (checked_size_multiply a b)
unfolding checked_size_multiply
checked_size_multiply-exact zero b = gives (refl, omega arith)
checked_size_multiply-exact (suc a) b =
    let nonzero : (suc a == 0) ≡ false = ground arith in
    elim (Bool-cases (ltb (size_max / suc a) b)) [
      | inl over ↦
          let p =
            (div-lt_iff_lt-mul {k = suc a} {x = size_max} {y = b} (omega arith)).0
              (ltb→lt (size_max / suc a) b over) in
          rw (nonzero, over) (throws (refl, omega arith))
      | inr fits ↦
          let p =
            (le-div_iff_mul-le {k = suc a} {x = b} {y = size_max} (omega arith)).0
              (ltb→le (size_max / suc a) b fits) in
          rw (nonzero, fits) (gives (refl, omega arith))
    ]

-- Below the greatest std::size_t, triangularNumber returns the number whose double is n(n + 1), or
-- throws an overflow when that number does not fit.
pub triangular_number-exact :
    (n : ℕ)
    → n < size_max
    → Gives
        (λ t. (2 * t ≡ n * (n + 1)) × (t ≤ size_max))
        (λ e. IsOverflow e × (2 * size_max < n * (n + 1)))
        (triangular_number n)
unfolding triangular_number
triangular_number-exact n h = elim (Bool-cases (n % 2 == 0)) [
  | inl even ↦
      let half : n ≡ 2 * (n / 2) = ground arith in
      let product : n * (n + 1) ≡ 2 * (n / 2 * (n + 1)) =
        ap (λ (t : ℕ). t * (n + 1)) half ∙ omega arith in
      rw even (
        Result.bind
          (Result.mono (checked_size_add-exact n 1 (omega arith)) (λ m p. p)
            (λ e (is, over). absurd (omega arith)))
          λ m (em, fits). rw em (
            Result.mono (checked_size_multiply-exact (n / 2) (n + 1)) (λ t p. omega (arith, p.0))
              (λ e p. (p.0, omega (arith, p.1)))))
  | inr odd ↦
      let half : n ≡ 2 * (n / 2) + 1 = ground arith in
      let product : n * (n + 1) ≡ 2 * (n * (n / 2 + 1)) =
        ap (λ (t : ℕ). n * (t + 1)) half ∙ omega arith in
      rw odd (
        Result.mono (checked_size_multiply-exact n (n / 2 + 1)) (λ t p. omega (arith, p.0))
          (λ e p. (p.0, omega (arith, p.1))))
]

-- The loop counts the binary digits of the number.
height_loop-digits :
    (k n h : ℕ)
    → n < 2 ^ k
    → (b : ℕ) × (height_loop (suc k) n h ≡ ok (h + b)) × (n < 2 ^ b) × ((b ≡ 0) ⊎ (2 ^ (b - 1) ≤ n))
unfolding height_loop
height_loop-digits zero n h small =
    let e : n ≡ 0 = omega (arith, pow-zero 2) in
    let e' : h ≡ h + 0 = omega arith in
    (0, rw (e, ← e'), rw e (omega (arith, pow-zero 2)), inl refl)
height_loop-digits (suc k) n h small = elim (Bool-cases (n == 0)) [
  | inl done ↦
      let e : n ≡ 0 = eq_of_== n 0 done in
      let e' : h ≡ h + 0 = omega arith in
      (0, rw (done, ← e'), rw e (omega (arith, pow-zero 2)), inl refl)
  | inr more ↦
      let (b, run, upper, lower) =
        height_loop-digits k (n / 2) (h + 1) (omega (arith, pow-suc 2 k)) in
      let nonzero = ne_of_== n 0 more in
      let e : h + 1 + b ≡ h + suc b = omega arith in
      let same : suc b - 1 ≡ b = omega arith in
      (
        suc b,
        rw (more, run, e),
        omega (arith, pow-suc 2 b),
        inr (rw same (at_least b n nonzero lower)),
      )
]
  where
    at_least : (b n : ℕ) → (n ≡ 0 → ⊥) → (b ≡ 0) ⊎ (2 ^ (b - 1) ≤ n / 2) → 2 ^ b ≤ n
    at_least zero n nonzero lower = omega (arith, pow-zero 2)
    at_least (suc b) n nonzero lower =
        let same : suc b - 1 ≡ b = omega arith in omega (arith, pow-suc 2 b, rw same at lower)

-- For a positive leaf count that std::size_t holds, treeHeight ends with the base-two logarithm of
-- the count, rounded up.
pub tree_height-log2 :
    (n : ℕ)
    → 0 < n
    → n ≤ size_max
    → (h : ℕ) × (tree_height n ≡ ok h) × (n ≤ 2 ^ h) × ((h ≡ 0) ⊎ (2 ^ (h - 1) < n))
unfolding tree_height
tree_height-log2 n p q =
    let nonzero : (n == 0) ≡ false = ground arith in
    let (b, run, upper, lower) = height_loop-digits 64 (n - 1) 0 (omega arith) in
    let e : 0 + b ≡ b = omega arith in
    (
      b,
      rw (nonzero, ← e) run,
      omega arith,
      elim lower [ inl z ↦ inl z | inr low ↦ inr (omega arith) ],
    )
