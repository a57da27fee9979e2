-- ===== src/Segment/Sum.antt =====
-- The laws of segment sums: splitting, congruence, a uniform addition, and a query's range.
use version_aware_lazy_segtr.Prelude.{
  ℕ, zero, suc, ◌+◌, ◌-◌, ◌≤◌, ◌<◌, ◌≡◌, refl, sym, ◌∙◌, arith, inl, inr, Bool-cases, ◌⊎◌, covers,
}
use version_aware_lazy_segtr.Prelude.Int.{ℤ, pos, ◌+ℤ◌, ◌*ℤ◌, int_laws, zero-+ℤ, +ℤ-zero}
use version_aware_lazy_segtr.Segment.{Values, sum_from, seg_sum, add_range, within, plus}

-- Two arrays agree on the indices from l to r.
abbrev pub Agree : Values → Values → ℕ → ℕ → Type 0
Agree f g l r = (k : ℕ) → l ≤ k → k ≤ r → f k ≡ g k

pub sum_from-congr :
    (f g : Values) (l n : ℕ)
    → ((k : ℕ) → l ≤ k → k < l + n → f k ≡ g k)
    → sum_from f l n ≡ sum_from g l n
unfolding sum_from
sum_from-congr f g l zero h = refl
sum_from-congr f g l (suc n) h =
    rw (h l (omega arith) (omega arith))
      (rw (sum_from-congr f g (suc l) n (λ k p q. h k (omega arith) (omega arith))))

pub sum_from-add :
    (f : Values) (l n m : ℕ) → sum_from f l (n + m) ≡ sum_from f l n +ℤ sum_from f (l + n) m
unfolding sum_from
sum_from-add f l zero m =
    let e : 0 + m ≡ m = omega arith in
    let e' : l + 0 ≡ l = omega arith in rw (e, e') (sym (zero-+ℤ (sum_from f l m)))
sum_from-add f l (suc n) m =
    let e : suc n + m ≡ suc (n + m) = omega arith in
    let e' : l + suc n ≡ suc l + n = omega arith in
    rw (e, e', sum_from-add f (suc l) n m) (omega int_laws)

pub sum_from-plus :
    (f : Values) (v : ℤ) (l n : ℕ) → sum_from (plus f v) l n ≡ sum_from f l n +ℤ v *ℤ pos n
unfolding sum_from
sum_from-plus f v l zero = omega int_laws
sum_from-plus f v l (suc n) = rw (sum_from-plus f v (suc l) n) (omega int_laws)

pub sum_from-zero :
    (f : Values) (l n : ℕ) → ((k : ℕ) → l ≤ k → k < l + n → f k ≡ pos 0) → sum_from f l n ≡ pos 0
unfolding sum_from
sum_from-zero f l zero h = refl
sum_from-zero f l (suc n) h =
    rw (h l (omega arith) (omega arith))
      (rw (sum_from-zero f (suc l) n (λ k p q. h k (omega arith) (omega arith))) (zero-+ℤ (pos 0)))

pub seg_sum-congr : (f g : Values) (l r : ℕ) → Agree f g l r → seg_sum f l r ≡ seg_sum g l r
seg_sum-congr f g l r h = sum_from-congr f g l (r + 1 - l) (λ k p q. h k p (omega arith))

pub seg_sum-single : (f : Values) (l : ℕ) → seg_sum f l l ≡ f l
unfolding sum_from
seg_sum-single f l = let e : l + 1 - l ≡ 1 = omega arith in rw e (+ℤ-zero (f l))

pub seg_sum-split :
    (f : Values) (l m r : ℕ) → l ≤ m → m < r → seg_sum f l r ≡ seg_sum f l m +ℤ seg_sum f (m + 1) r
seg_sum-split f l m r p q =
    let e : r + 1 - l ≡ (m + 1 - l) + (r + 1 - (m + 1)) = omega arith in
    let e' : l + (m + 1 - l) ≡ m + 1 = omega arith in
    rw e (sum_from-add f l (m + 1 - l) (r + 1 - (m + 1)) ∙ rw e')

pub seg_sum-plus :
    (f : Values) (v : ℤ) (l r : ℕ) → seg_sum (plus f v) l r ≡ seg_sum f l r +ℤ v *ℤ pos (r + 1 - l)
seg_sum-plus f v l r = sum_from-plus f v l (r + 1 - l)

-- A segment that the range of an update covers gains the action once for each element.
pub seg_sum-add_range :
    (f : Values) (ql qr : ℕ) (v : ℤ) (l r : ℕ)
    → ql ≤ l
    → r ≤ qr
    → seg_sum (add_range f ql qr v) l r ≡ seg_sum f l r +ℤ v *ℤ pos (r + 1 - l)
seg_sum-add_range f ql qr v l r p q =
    seg_sum-congr (add_range f ql qr v) (plus f v) l r (λ k a b. ground arith)
    ∙ seg_sum-plus f v l r

-- An update does not reach the indices on either side of its range.
pub Agree-add_range_left :
    (f : Values) (ql qr : ℕ) (v : ℤ) (l r : ℕ) → r < ql → Agree (add_range f ql qr v) f l r
Agree-add_range_left f ql qr v l r h k p q = ground arith

pub Agree-add_range_right :
    (f : Values) (ql qr : ℕ) (v : ℤ) (l r : ℕ) → qr < l → Agree (add_range f ql qr v) f l r
Agree-add_range_right f ql qr v l r h k p q = ground arith

-- What a query collects, by how its range meets a segment.
pub within_outside :
    (f : Values) (ql qr l r : ℕ) → (r < ql) ⊎ (qr < l) → seg_sum (within f ql qr) l r ≡ pos 0
within_outside f ql qr l r h = sum_from-zero (within f ql qr) l (r + 1 - l) (λ k p q. ground arith)

pub within_inside :
    (f : Values) (ql qr l r : ℕ) → ql ≤ l → r ≤ qr → seg_sum (within f ql qr) l r ≡ seg_sum f l r
within_inside f ql qr l r p q = seg_sum-congr (within f ql qr) f l r (λ k a b. ground arith)

within_before : (f : Values) (ql qr k : ℕ) → k < ql → within f ql qr k ≡ pos 0
within_before f ql qr k h = ground arith

within_after : (f : Values) (ql qr k : ℕ) → qr < k → within f ql qr k ≡ pos 0
within_after f ql qr k h = ground arith

-- Over the whole array a query collects the sum of its range.
pub within_whole :
    (f : Values) (ql qr n : ℕ) → ql ≤ qr → qr ≤ n → seg_sum (within f ql qr) 0 n ≡ seg_sum f ql qr
within_whole f ql qr n p q =
    let w = within f ql qr in
    let e : n + 1 - 0 ≡ ql + ((qr + 1 - ql) + (n - qr)) = omega arith in
    let before : sum_from w 0 ql ≡ pos 0 =
      sum_from-zero w 0 ql (λ k a b. within_before f ql qr k (omega arith)) in
    let after : sum_from w (0 + ql + (qr + 1 - ql)) (n - qr) ≡ pos 0 =
      sum_from-zero w (0 + ql + (qr + 1 - ql)) (n - qr)
        (λ k a b. within_after f ql qr k (omega arith)) in
    let e' : 0 + ql ≡ ql = omega arith in
    rw
      (
        e,
        sum_from-add w 0 ql ((qr + 1 - ql) + (n - qr)),
        before,
        sum_from-add w (0 + ql) (qr + 1 - ql) (n - qr),
        after,
        e',
      )
      (rw (within_inside f ql qr ql qr (omega arith) (omega arith)) (omega int_laws))

-- An update and a retained tag can be applied in either order: additions commute.
pub add_range-plus :
    (f g : Values) (t v : ℤ) (ql qr l r : ℕ)
    → Agree f (plus g t) l r
    → Agree (add_range f ql qr v) (plus (add_range g ql qr v) t) l r
add_range-plus f g t v ql qr l r same k p q = elim (Bool-cases (covers ql qr k k)) [
  | inl on ↦ rw (on, same k p q) (omega int_laws)
  | inr off ↦ rw off (same k p q)
]

pub Agree-sym : {f g : Values} {l r : ℕ} → Agree f g l r → Agree g f l r
Agree-sym same k p q = sym (same k p q)
