-- ===== src/Persistent/Leaves.antt =====
-- The recursion of materialize in src/persistent_lazy_segment_tree.cpp.
use mathlib.Core.List.{append_assoc}
use version_aware_lazy_segtr.Prelude.{
  ℕ, zero, suc, ◌+◌, ◌-◌, ◌≤◌, ◌<◌, ◌≡◌, refl, ap, ◌∙◌, inl, inr, true, false, List, [], ◌∷◌, ◌++◌,
  arith, ◌==◌, ltb, Bool-cases, ltb→lt, ltb→le, length, length-append,
}
use version_aware_lazy_segtr.Prelude.Int.{ℤ, pos, ◌+ℤ◌, ◌*ℤ◌, int_laws}
use version_aware_lazy_segtr.Prelude.Result
use version_aware_lazy_segtr.Prelude.Result.{Gives, gives, IsOverflow}
use version_aware_lazy_segtr.Policy.{IsLong}
use version_aware_lazy_segtr.Policy.Arithmetic.{checked_add-Gives}
use version_aware_lazy_segtr.Policy.SumAdd.Exact.{apply-Gives}
use version_aware_lazy_segtr.Size.{midpoint}
use version_aware_lazy_segtr.Segment.{Values, of_list, AllLong, plus}
use version_aware_lazy_segtr.Segment.Sum.{Agree, seg_sum-single}
use version_aware_lazy_segtr.Persistent.Write.{Arena}
use version_aware_lazy_segtr.Persistent.Read.{materialize}
use version_aware_lazy_segtr.Persistent.Holds.{Holds, leaf, inner}

of_list-append_left : (xs ys : List ℤ) (k : ℕ) → k < length xs → of_list (xs ++ ys) k ≡ of_list xs k
of_list-append_left [] ys k h = elim h [ ]
of_list-append_left (x ∷ xs) ys zero h = refl
of_list-append_left (x ∷ xs) ys (suc k) h = of_list-append_left xs ys k (omega arith)

of_list-append_right :
    (xs ys : List ℤ) (k : ℕ) → length xs ≤ k → of_list (xs ++ ys) k ≡ of_list ys (k - length xs)
of_list-append_right [] ys k h = let e : k - 0 ≡ k = omega arith in rw e
of_list-append_right (x ∷ xs) ys zero h = absurd (omega arith)
of_list-append_right (x ∷ xs) ys (suc k) h =
    let e : suc k - suc (length xs) ≡ k - length xs = omega arith in
    rw e (of_list-append_right xs ys k (omega arith))

-- The values of f on the segment from l to r, each with acc added.
pub record Lists (f : Values) (acc : ℤ) (l r : ℕ) (zs : List ℤ) : Type 0 where
  pub size : length zs ≡ r + 1 - l
  pub long : AllLong zs
  pub value : (k : ℕ) → k < length zs → of_list zs k ≡ f (l + k) +ℤ acc

pub Lists-single :
    (f : Values) (acc z : ℤ) (l : ℕ) → z ≡ f l +ℤ acc → IsLong z → Lists f acc l l (z ∷ [])
Lists-single f acc z l e h = record {
  size = omega arith;
  long = λ k lt. single_long k lt;
  value = λ k lt. single_value k lt;
}
  where
    single_long : (k : ℕ) → k < 1 → IsLong (of_list (z ∷ []) k)
    single_long zero lt = h
    single_long (suc k) lt = absurd (omega arith)

    single_value : (k : ℕ) → k < 1 → of_list (z ∷ []) k ≡ f (l + k) +ℤ acc
    single_value zero lt = let at : l + 0 ≡ l = omega arith in rw at e
    single_value (suc k) lt = absurd (omega arith)

-- The lists of two halves make the list of the whole, with the parent's tag moved to the halves.
pub Lists-append :
    (f g : Values) (t acc : ℤ) (l r : ℕ) (xs ys : List ℤ)
    → l < r
    → Agree f (plus g t) l r
    → Lists g (acc +ℤ t) l (midpoint l r) xs
    → Lists g (acc +ℤ t) (midpoint l r + 1) r ys
    → Lists f acc l r (xs ++ ys)
Lists-append f g t acc l r xs ys below same a b = record {
  size = omega (arith, length-append xs ys, a.size, b.size);
  long = λ k lt. elim (Bool-cases (ltb k (length xs))) [
    | inl first ↦
        let p = ltb→lt k (length xs) first in rw (of_list-append_left xs ys k p) (a.long k p)
    | inr second ↦
        let p = ltb→le k (length xs) second in
        rw (of_list-append_right xs ys k p)
          (b.long (k - length xs) (omega (arith, length-append xs ys)))
  ];
  value = λ k lt.
      let moved : f (l + k) +ℤ acc ≡ g (l + k) +ℤ (acc +ℤ t) =
        rw (same (l + k) (omega arith) (omega (arith, length-append xs ys, a.size, b.size)))
          (omega int_laws) in
      elim (Bool-cases (ltb k (length xs))) [
        | inl first ↦
            let p = ltb→lt k (length xs) first in
            rw (of_list-append_left xs ys k p, moved) (a.value k p)
        | inr second ↦
            let p = ltb→le k (length xs) second in
            let at : midpoint l r + 1 + (k - length xs) ≡ l + k = omega (arith, a.size) in
            rw (of_list-append_right xs ys k p, moved, ← at)
              (b.value (k - length xs) (omega (arith, length-append xs ys)))
      ];
}

-- The vector that is handed back: what was there, and the list of the segment behind it.
abbrev pub Appended : Values → ℤ → ℕ → ℕ → List ℤ → List ℤ → Type 0
Appended f acc l r values out = (zs : List ℤ) × (out ≡ values ++ zs) × Lists f acc l r zs

pub materialize-Gives :
    (fuel : ℕ) {nodes : Arena} {i l r : ℕ} {f : Values} (acc : ℤ) (values : List ℤ)
    → Holds nodes i f l r
    → l ≤ r
    → r - l < fuel
    → IsLong acc
    → Gives (Appended f acc l r values) IsOverflow (materialize fuel nodes i l r acc values)
unfolding materialize
materialize-Gives zero acc values h le enough ha = absurd (omega arith)
materialize-Gives (suc fuel) {f} acc values (leaf {l} {r} {n} at e x) le enough ha =
    let same : (l == r) ≡ true = ground arith in
    rw (at, same)
      (Result.bind (apply-Gives acc n.sum 1 ha x.sum_long) λ z (ez, hz).
        let here : n.sum ≡ f l = x.sum_exact ∙ rw (← e) (seg_sum-single f l) in
        let one : n.sum +ℤ acc *ℤ pos 1 ≡ f l +ℤ acc = rw here (omega int_laws) in
        gives (z ∷ [], refl, rw (← e) (Lists-single f acc z l (ez ∙ one) (rw ez hz))))
materialize-Gives (suc fuel) {f} acc values (inner {l} {r} {g} {n} at below a b same x) le enough
      ha =
    let more : (l == r) ≡ false = ground arith in
    rw (at, more)
      (Result.bind (checked_add-Gives acc n.lazy ha x.lazy_long) λ next (en, hn). rw en (
        Result.bind (materialize-Gives fuel (acc +ℤ n.lazy) values a (omega arith) (omega arith) hn)
          λ out (xs, eo, left).
            Result.mono
              (materialize-Gives fuel (acc +ℤ n.lazy) out b (omega arith) (omega arith) hn)
              (λ out' (ys, eo', right). (
                xs ++ ys,
                eo' ∙ ap (λ l. l ++ ys) eo ∙ append_assoc values xs ys,
                Lists-append f g n.lazy acc l r xs ys below same left right,
              ))
              (λ e h. h)))
