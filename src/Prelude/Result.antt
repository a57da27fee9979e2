-- ===== src/Prelude/Result.antt =====
-- Code that may throw: a result, and what is known of it.
use mathlib.Core.Path.{◌≡◌, refl}
use mathlib.Core.Logic.{◌⊎◌, inl, inr}
use mathlib.Core.Option.{Option, none, some}

-- The exceptions of the library, by their C++ class. A fault is an access outside a vector, which
-- C++ leaves undefined; out_of_fuel marks a recursion of the model that was cut off.
pub data Error : Type 0 where
  overflow_error invalid_argument out_of_range runtime_error logic_error : Error
  fault out_of_fuel : Error

pub data Result (A : Type 0) : Type 0 where
  ok : A → Result A
  err : Error → Result A

infixl 5 ◌>>=◌ ◌>>◌
abbrev pub ◌>>=◌ : {A B : Type 0} → Result A → (A → Result B) → Result B
ok a >>= f = f a
err e >>= f = err e

abbrev pub ◌>>◌ : {A B : Type 0} → Result A → Result B → Result B
m >> k = m >>= λ _. k

abbrev pub or_fault : {A : Type 0} → Option A → Result A
or_fault none = err fault
or_fault (some a) = ok a

pub ok_injective : {A : Type 0} {a b : A} → ok a ≡ ok b → a ≡ b
ok_injective h = cc

err_injective : {A : Type 0} {d e : Error} → ◌≡◌ {A = Result A} (err d) (err e) → d ≡ e
err_injective h = cc

-- The one exception of checked arithmetic.
abbrev pub IsOverflow : Error → Type 0
IsOverflow e = e ≡ overflow_error

-- A result whose value meets P, or whose exception meets E.
pub data Gives {A : Type 0} (P : A → Type 0) (E : Error → Type 0) : Result A → Type 0 where
  gives : {a : A} → P a → Gives P E (ok a)
  throws : {e : Error} → E e → Gives P E (err e)

module _ {A : Type 0} {P : A → Type 0} {E : Error → Type 0} where
  pub bind :
      {B : Type 0} {Q : B → Type 0} {r : Result A} {k : A → Result B}
      → Gives P E r
      → ((a : A) → P a → Gives Q E (k a))
      → Gives Q E (r >>= k)
  bind (gives p) next = next _ p
  bind (throws e) next = throws e

  pub mono :
      {Q : A → Type 0} {F : Error → Type 0} {r : Result A}
      → Gives P E r
      → ((a : A) → P a → Q a)
      → ((e : Error) → E e → F e)
      → Gives Q F r
  mono (gives p) weaken weaken_error = gives (weaken _ p)
  mono (throws e) weaken weaken_error = throws (weaken_error _ e)

  -- What is known of a value, with the calculation that made it.
  pub with_run : {r : Result A} → Gives P E r → Gives (λ a. P a × (r ≡ ok a)) E r
  with_run (gives p) = gives (p, refl)
  with_run (throws e) = throws e

  pub value : {r : Result A} {a : A} → Gives P E r → r ≡ ok a → P a
  value (gives p) h = rw (← ok_injective h) p
  value (throws e) h = cc

  pub exception : {r : Result A} {e : Error} → Gives P E r → r ≡ err e → E e
  exception (gives p) h = cc
  exception (throws q) h = rw (← err_injective h) q

  pub Gives-cases :
      {r : Result A}
      → Gives P E r
      → ((a : A) × (r ≡ ok a) × P a) ⊎ ((e : Error) × (r ≡ err e) × E e)
  Gives-cases (gives {a} p) = inl (a, refl, p)
  Gives-cases (throws {e} q) = inr (e, refl, q)

pub Result-cases :
    {A : Type 0} (r : Result A) → ((a : A) × (r ≡ ok a)) ⊎ ((e : Error) × (r ≡ err e))
Result-cases (ok a) = inl (a, refl)
Result-cases (err e) = inr (e, refl)
