-- ===== src/PolicyTrees/Fold.antt =====
-- What a tree over a policy promises: the values of the elements, combined in index order, and an
-- action on each element of a range.
use version_aware_lazy_segtr.Prelude.{
  ℕ, zero, suc, ◌+◌, ◌-◌, ◌≤◌, ◌<◌, ◌≡◌, refl, sym, arith, covers, if◌then◌else◌,
}
use version_aware_lazy_segtr.Policy.Interface.{Policy, Laws}

abbrev pub Elements : Type 0 → Type 0
Elements A = ℕ → A

-- The elements from l to r, in this order.
module _ {A : Type 0} (plus : A → A → A) where
  unfoldable pub fold_from : Elements A → ℕ → ℕ → A
  fold_from f l zero = f l
  fold_from f l (suc n) = plus (f l) (fold_from f (l + 1) n)

  abbrev pub fold : Elements A → ℕ → ℕ → A
  fold f l r = fold_from f l (r - l)

  fold_from-congr :
      (f g : Elements A) (l n : ℕ)
      → ((k : ℕ) → l ≤ k → k ≤ l + n → f k ≡ g k)
      → fold_from f l n ≡ fold_from g l n
  unfolding fold_from
  fold_from-congr f g l zero same = same l (omega arith) (omega arith)
  fold_from-congr f g l (suc n) same =
      rw
        (
          same l (omega arith) (omega arith),
          fold_from-congr f g (l + 1) n (λ k p q. same k (omega arith) (omega arith)),
        )
        refl

  pub fold-congr :
      (f g : Elements A) (l r : ℕ)
      → l ≤ r
      → ((k : ℕ) → l ≤ k → k ≤ r → f k ≡ g k)
      → fold f l r ≡ fold g l r
  fold-congr f g l r le same = fold_from-congr f g l (r - l) (λ k p q. same k p (omega arith))

  pub fold-single : (f : Elements A) (l : ℕ) → fold f l l ≡ f l
  unfolding fold_from
  fold-single f l = let none : l - l ≡ 0 = omega arith in rw none refl

  module _ (assoc : (a b c : A) → plus (plus a b) c ≡ plus a (plus b c)) where
    fold_from-split :
        (f : Elements A) (l a b : ℕ)
        → fold_from f l (a + 1 + b) ≡ plus (fold_from f l a) (fold_from f (l + a + 1) b)
    unfolding fold_from
    fold_from-split f l zero b =
        let first : 0 + 1 + b ≡ suc b = omega arith in
        let next : l + 0 + 1 ≡ l + 1 = omega arith in rw (first, next) refl
    fold_from-split f l (suc a) b =
        let first : suc a + 1 + b ≡ suc (a + 1 + b) = omega arith in
        let next : l + suc a + 1 ≡ l + 1 + a + 1 = omega arith in
        rw (first, next, fold_from-split f (l + 1) a b)
          (sym (assoc (f l) (fold_from f (l + 1) a) (fold_from f (l + 1 + a + 1) b)))

    pub fold-split :
        (f : Elements A) (l m r : ℕ)
        → l ≤ m
        → m < r
        → fold f l r ≡ plus (fold f l m) (fold f (m + 1) r)
    fold-split f l m r le lt =
        let whole : r - l ≡ m - l + 1 + (r - (m + 1)) = omega arith in
        let next : l + (m - l) + 1 ≡ m + 1 = omega arith in
        let split = fold_from-split f l (m - l) (r - (m + 1)) in rw whole (rw next at split)

module _ {A B : Type 0} {p : Policy A B} (laws : Laws p) where
  -- The same action on every element, and on the elements of a range.
  abbrev pub acted : B → Elements A → Elements A
  acted action f k = laws.act action (f k) 1

  abbrev pub applied : (left right : ℕ) → B → Elements A → Elements A
  applied left right action f k = if covers left right k k then laws.act action (f k) 1 else f k

  fold_from-acted :
      (t : B) (f : Elements A) (l n : ℕ)
      → laws.Good t
      → fold_from laws.plus (acted t f) l n ≡ laws.act t (fold_from laws.plus f l n) (n + 1)
  unfolding fold_from
  fold_from-acted t f l zero good = let one : 0 + 1 ≡ 1 = omega arith in rw one refl
  fold_from-acted t f l (suc n) good =
      let whole : suc n + 1 ≡ 1 + (n + 1) = omega arith in
      rw (fold_from-acted t f (l + 1) n good, whole)
        (sym (laws.act_plus (f l) (fold_from laws.plus f (l + 1) n) 1 (n + 1) good))

  -- An action on all elements is the action on their combination.
  pub fold-acted :
      (t : B) (f : Elements A) (l r : ℕ)
      → l ≤ r
      → laws.Good t
      → fold laws.plus (acted t f) l r ≡ laws.act t (fold laws.plus f l r) (r - l + 1)
  fold-acted t f l r le good = fold_from-acted t f l (r - l) good
