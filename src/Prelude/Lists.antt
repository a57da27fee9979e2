-- ===== src/Prelude/Lists.antt =====
-- Lists measured and indexed by native numbers, under the library's names.
use Prim.Native.Nat.{ℕ, zero, suc, ◌+◌, ◌<◌}
use mathlib.Core.Path.{◌≡◌, refl, ap}
use mathlib.Core.Logic.{◌⊎◌, inl, inr}
use mathlib.Core.List.{List, [], ◌∷◌, ◌++◌}
use mathlib.Core.Option.{Option, none, some}
use native.Mathlib.Omega.{arith}

module _ {ℓ} {A : Type ℓ} where
  abbrev pub length : List A → ℕ
  length [] = 0
  length (x ∷ xs) = suc (length xs)

  abbrev pub get_elem? : List A → ℕ → Option A
  get_elem? [] i = none
  get_elem? (x ∷ xs) zero = some x
  get_elem? (x ∷ xs) (suc i) = get_elem? xs i

  abbrev pub get_or : List A → ℕ → A → A
  get_or [] i d = d
  get_or (x ∷ xs) zero d = x
  get_or (x ∷ xs) (suc i) d = get_or xs i d

  -- A write out of bounds changes nothing.
  abbrev pub set : List A → ℕ → A → List A
  set [] i v = []
  set (x ∷ xs) zero v = v ∷ xs
  set (x ∷ xs) (suc i) v = x ∷ set xs i v

  abbrev pub take : ℕ → List A → List A
  take zero xs = []
  take (suc n) [] = []
  take (suc n) (x ∷ xs) = x ∷ take n xs

  pub length-append : (xs ys : List A) → length (xs ++ ys) ≡ length xs + length ys
  length-append [] ys = omega arith
  length-append (x ∷ xs) ys = omega (arith, length-append xs ys)

  pub length-set : (xs : List A) (i : ℕ) (v : A) → length (set xs i v) ≡ length xs
  length-set [] i v = refl
  length-set (x ∷ xs) zero v = refl
  length-set (x ∷ xs) (suc i) v = ap suc (length-set xs i v)

  -- An element that stands in a list stays where it is when more is appended.
  pub get_elem?-append :
      (xs ys : List A) (i : ℕ) (a : A) → get_elem? xs i ≡ some a → get_elem? (xs ++ ys) i ≡ some a
  get_elem?-append [] ys i a h = cc
  get_elem?-append (x ∷ xs) ys zero a h = h
  get_elem?-append (x ∷ xs) ys (suc i) a h = get_elem?-append xs ys i a h

  -- The element that is appended is found at the old length.
  pub get_elem?-append_last :
      (xs : List A) (a : A) → get_elem? (xs ++ (a ∷ [])) (length xs) ≡ some a
  get_elem?-append_last [] a = refl
  get_elem?-append_last (x ∷ xs) a = get_elem?-append_last xs a

  pub get_elem?-get_or :
      (xs : List A) (i : ℕ) (d : A) → i < length xs → get_elem? xs i ≡ some (get_or xs i d)
  get_elem?-get_or [] i d h = elim h [ ]
  get_elem?-get_or (x ∷ xs) zero d h = refl
  get_elem?-get_or (x ∷ xs) (suc i) d h = get_elem?-get_or xs i d (omega arith)

  pub lt_length_of_get_elem? :
      (xs : List A) (i : ℕ) (a : A) → get_elem? xs i ≡ some a → i < length xs
  lt_length_of_get_elem? [] i a h = cc
  lt_length_of_get_elem? (x ∷ xs) zero a h = omega arith
  lt_length_of_get_elem? (x ∷ xs) (suc i) a h = omega (arith, lt_length_of_get_elem? xs i a h)

  pub get_or-set_self :
      (xs : List A) (i : ℕ) (v d : A) → i < length xs → get_or (set xs i v) i d ≡ v
  get_or-set_self [] i v d h = elim h [ ]
  get_or-set_self (x ∷ xs) zero v d h = refl
  get_or-set_self (x ∷ xs) (suc i) v d h = get_or-set_self xs i v d (omega arith)

  pub get_or-set_ne :
      (xs : List A) (i j : ℕ) (v d : A) → (i ≡ j → ⊥) → get_or (set xs i v) j d ≡ get_or xs j d
  get_or-set_ne [] i j v d h = refl
  get_or-set_ne (x ∷ xs) zero zero v d h = absurd (h refl)
  get_or-set_ne (x ∷ xs) zero (suc j) v d h = refl
  get_or-set_ne (x ∷ xs) (suc i) zero v d h = refl
  get_or-set_ne (x ∷ xs) (suc i) (suc j) v d h = get_or-set_ne xs i j v d (λ e. h (ap suc e))

  -- Truncating to the old length undoes an append.
  pub take-append : (xs ys : List A) → take (length xs) (xs ++ ys) ≡ xs
  take-append [] ys = refl
  take-append (x ∷ xs) ys = ap (λ zs. x ∷ zs) (take-append xs ys)

  -- An entry of a list with one element appended is an old one, or the new one.
  pub get_elem?-append_cases :
      (xs : List A) (a b : A) (k : ℕ)
      → get_elem? (xs ++ (a ∷ [])) k ≡ some b
      → (get_elem? xs k ≡ some b) ⊎ ((k ≡ length xs) × (a ≡ b))
  get_elem?-append_cases [] a b zero h = inr (refl, (cc))
  get_elem?-append_cases [] a b (suc k) h = inl (cc)
  get_elem?-append_cases (x ∷ xs) a b zero h = inl h
  get_elem?-append_cases (x ∷ xs) a b (suc k) h = elim (get_elem?-append_cases xs a b k h) [
    | inl old ↦ inl old
    | inr (e, new) ↦ inr (omega arith, new)
  ]

  pub some_entry : (xs : List A) (k : ℕ) → k < length xs → (a : A) × (get_elem? xs k ≡ some a)
  some_entry [] k p = elim p [ ]
  some_entry (x ∷ xs) zero p = (x, refl)
  some_entry (x ∷ xs) (suc k) p = some_entry xs k (omega arith)

  pub get_elem?-set_self :
      (xs : List A) (i : ℕ) (v y : A) → get_elem? xs i ≡ some y → get_elem? (set xs i v) i ≡ some v
  get_elem?-set_self [] i v y h = cc
  get_elem?-set_self (x ∷ xs) zero v y h = refl
  get_elem?-set_self (x ∷ xs) (suc i) v y h = get_elem?-set_self xs i v y h

  pub get_elem?-set_ne :
      (xs : List A) (i j : ℕ) (v : A) → (j ≡ i → ⊥) → get_elem? (set xs i v) j ≡ get_elem? xs j
  get_elem?-set_ne [] i j v h = refl
  get_elem?-set_ne (x ∷ xs) zero zero v h = absurd (h refl)
  get_elem?-set_ne (x ∷ xs) zero (suc j) v h = refl
  get_elem?-set_ne (x ∷ xs) (suc i) zero v h = refl
  get_elem?-set_ne (x ∷ xs) (suc i) (suc j) v h = get_elem?-set_ne xs i j v (λ e. h (omega arith))

  -- The last write counts.
  pub set_twice : (xs : List A) (i : ℕ) (v w : A) → set (set xs i v) i w ≡ set xs i w
  set_twice [] i v w = refl
  set_twice (x ∷ xs) zero v w = refl
  set_twice (x ∷ xs) (suc i) v w = ap (λ l. x ∷ l) (set_twice xs i v w)
