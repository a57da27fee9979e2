-- ===== src/Domain/Loop.antt =====
-- The update loop of the guard and of the brute-force array.
use version_aware_lazy_segtr.Prelude.{
  ℕ, zero, suc, ◌+◌, ◌-◌, ◌≤◌, ◌<◌, ◌≡◌, refl, inl, inr, ◌∙◌, List, arith, ◌==◌, ◌&&◌, leb, ltb,
  if◌then◌else◌, Bool-cases, eq_of_==, ne_of_==, length, get_elem?-get_or, set, get_or-set_self,
  get_or-set_ne, length-set,
}
use version_aware_lazy_segtr.Prelude.Int.{ℤ, pos, ◌+ℤ◌}
use version_aware_lazy_segtr.Prelude.Result
use version_aware_lazy_segtr.Prelude.Result.{
  Result, Error, ok, err, Gives, gives, throws, IsOverflow, overflow_error,
}
use version_aware_lazy_segtr.Policy.{IsLong}
use version_aware_lazy_segtr.Policy.Arithmetic.{IsLong-cases, checked_add-ok, checked_add-err}
use version_aware_lazy_segtr.Segment.{of_list, AllLong, add_range}
use version_aware_lazy_segtr.Segment.Canonical.{Canonical, value_IsLong}
use version_aware_lazy_segtr.Domain.{add_each}

-- The value at index k after the loop has made n rounds from index i.
abbrev pub Updated : List ℤ → ℕ → ℕ → ℤ → List ℤ → Type 0
Updated xs n i v ys =
    (length ys ≡ length xs)
    × AllLong ys
    × ((k : ℕ)
        → of_list ys k ≡ (if leb i k && ltb k (i + n) then of_list xs k +ℤ v else of_list xs k))

-- An index in the range whose new value is no long long.
abbrev pub Escapes : List ℤ → ℕ → ℕ → ℤ → Error → Type 0
Escapes xs n i v e = IsOverflow e × (k : ℕ) × (i ≤ k) × (k < i + n) × (¬ IsLong (of_list xs k +ℤ v))

AllLong-set : (xs : List ℤ) (i : ℕ) (a : ℤ) → AllLong xs → IsLong a → AllLong (set xs i a)
AllLong-set xs i a all h k lt = elim (Bool-cases (i == k)) [
  | inl same ↦ rw (← eq_of_== i k same) (
      rw (get_or-set_self xs i a (pos 0) (rw (eq_of_== i k same) (rw (length-set xs i a) at lt))) h)
  | inr other ↦
      rw (get_or-set_ne xs i k a (pos 0) (ne_of_== i k other))
        (all k (rw (length-set xs i a) at lt))
]

-- One round in front of the others.
Updated-suc :
    (xs ys : List ℤ) (n i : ℕ) (v : ℤ)
    → i < length xs
    → Updated (set xs i (of_list xs i +ℤ v)) n (i + 1) v ys
    → Updated xs (suc n) i v ys
Updated-suc xs ys n i v lt (len, all, at) = (
  len ∙ length-set xs i (of_list xs i +ℤ v),
  all,
  λ k. elim (Bool-cases (i == k)) [
    | inl same ↦
        let e = eq_of_== i k same in
        rw (← e) (at i ∙ ground (arith, get_or-set_self xs i (of_list xs i +ℤ v) (pos 0) lt))
    | inr other ↦
        let e = get_or-set_ne xs i k (of_list xs i +ℤ v) (pos 0) (ne_of_== i k other) in
        at k ∙ rw e (ground arith)
  ],
)

Escapes-suc :
    (xs : List ℤ) (n i : ℕ) (v : ℤ) (e : Error)
    → Escapes (set xs i (of_list xs i +ℤ v)) n (i + 1) v e
    → Escapes xs (suc n) i v e
Escapes-suc xs n i v e (is, k, p, q, out) = (
  is,
  k,
  omega arith,
  omega arith,
  rw (get_or-set_ne xs i k (of_list xs i +ℤ v) (pos 0) (omega arith)) at out,
)

pub add_each-Gives :
    (n i : ℕ) (v : ℤ) (xs : List ℤ)
    → AllLong xs
    → IsLong v
    → i + n ≤ length xs
    → Gives (Updated xs n i v) (Escapes xs n i v) (add_each n i v xs)
unfolding add_each
add_each-Gives zero i v xs all hv lt = gives (refl, all, λ k. ground arith)
add_each-Gives (suc n) i v xs all hv lt =
    let a = of_list xs i in
    let ha : IsLong a = all i (omega arith) in
    rw (get_elem?-get_or xs i (pos 0) (omega arith)) (elim (IsLong-cases (a +ℤ v)) [
      | inl h ↦ rw (checked_add-ok a v ha hv h) (
          Result.mono
            (add_each-Gives n (i + 1) v (set xs i (a +ℤ v)) (AllLong-set xs i (a +ℤ v) all h) hv
              (rw (length-set xs i (a +ℤ v)) (omega arith)))
            (λ ys. Updated-suc xs ys n i v (omega arith)) (Escapes-suc xs n i v))
      | inr out ↦
          rw (checked_add-err a v ha hv out) (throws (refl, i, omega arith, omega arith, out))
    ])

-- The loop of a range addition, as the arrays see it.
pub Updated-add_range :
    (xs ys : List ℤ) (left right : ℕ) (v : ℤ)
    → left ≤ right
    → Updated xs (right + 1 - left) left v ys
    → (k : ℕ) → of_list ys k ≡ add_range (of_list xs) left right v k
Updated-add_range xs ys left right v le (len, all, at) k = at k ∙ ground arith

pub Escapes-add_range :
    (xs : List ℤ) (left right : ℕ) (v : ℤ) {e : Error}
    → left ≤ right
    → right < length xs
    → Escapes xs (right + 1 - left) left v e
    → ¬ Canonical (add_range (of_list xs) left right v) 0 (length xs - 1)
Escapes-add_range xs left right v le lt (is, k, p, q, out) c =
    let e : add_range (of_list xs) left right v k ≡ of_list xs k +ℤ v = ground arith in
    out (rw e at (value_IsLong c k (omega arith) (omega arith)))
