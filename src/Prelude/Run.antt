-- ===== src/Prelude/Run.antt =====
-- Code that may throw and that changes a state. The state comes back after a throw too, since what
-- was written stays written.
use mathlib.Core.Path.{◌≡◌, subst₂}
use version_aware_lazy_segtr.Prelude.Result.{Error, Result, ok, err, Gives, gives, throws}

pub data Run (S A : Type 0) : Type 0 where
  done : A → S → Run S A
  thrown : Error → S → Run S A

abbrev pub Action : Type 0 → Type 0 → Type 0
Action S A = S → Run S A

abbrev pub pure : {S A : Type 0} → A → Action S A
pure a s = done a s

-- A calculation that reads no state.
abbrev pub lift : {S A : Type 0} → Result A → Action S A
lift (ok a) s = done a s
lift (err e) s = thrown e s

-- A calculation on the state.
abbrev pub reads : {S A : Type 0} → (S → Result A) → Action S A
reads f s = lift (f s) s

abbrev pub and_then : {S A B : Type 0} → Run S A → (A → Action S B) → Run S B
and_then (done a s) k = k a s
and_then (thrown e s) k = thrown e s

infixl 5 ◌>>=◌ ◌>>◌
abbrev pub ◌>>=◌ : {S A B : Type 0} → Action S A → (A → Action S B) → Action S B
◌>>=◌ m k s = and_then (m s) k

abbrev pub ◌>>◌ : {S A B : Type 0} → Action S A → Action S B → Action S B
◌>>◌ m k s = and_then (m s) λ _. k

pub done_injective :
    {S A : Type 0} {a b : A} {s t : S} → ◌≡◌ {A = Run S A} (done a s) (done b t) → (a ≡ b) × (s ≡ t)
done_injective h = (cc, cc)

thrown_injective :
    {S A : Type 0} {d e : Error} {s t : S}
    → ◌≡◌ {A = Run S A} (thrown d s) (thrown e t)
    → (d ≡ e) × (s ≡ t)
thrown_injective h = (cc, cc)

-- A run that ends with a value and a state that meet P, or throws with a state that meets E.
pub data Ends {S A : Type 0} (P : A → S → Type 0) (E : Error → S → Type 0) : Run S A → Type 0 where
  returns : {a : A} {s : S} → P a s → Ends P E (done a s)
  raises : {e : Error} {s : S} → E e s → Ends P E (thrown e s)

module _ {S A B : Type 0} {Q : B → S → Type 0} {E : Error → S → Type 0} where
  pub bind :
      {P : A → S → Type 0} {r : Run S A} (k : A → Action S B)
      → Ends P E r
      → ((a : A) (s : S) → P a s → Ends Q E (k a s))
      → Ends Q E (and_then r k)
  bind k (returns p) next = next _ _ p
  bind k (raises e) next = raises e

  -- A step that only calculates leaves the state as it is.
  pub bind_lift :
      {P : A → Type 0} {F : Error → Type 0} {r : Result A} (k : A → Action S B) (s : S)
      → Gives P F r
      → ((a : A) → P a → Ends Q E (k a s))
      → ((e : Error) → F e → E e s)
      → Ends Q E (and_then (lift r s) k)
  bind_lift k s (gives p) next stop = next _ p
  bind_lift k s (throws e) next stop = raises (stop _ e)

  -- A calculation of which nothing is known.
  pub calculates :
      (r : Result A) (k : A → Action S B) (s : S)
      → ((a : A) → Ends Q E (k a s))
      → ((e : Error) → E e s)
      → Ends Q E (and_then (lift r s) k)
  calculates (ok a) k s next stop = next a
  calculates (err e) k s next stop = raises (stop e)

module _ {S A : Type 0} {P : A → S → Type 0} {E : Error → S → Type 0} where
  pub mono :
      {Q : A → S → Type 0} {F : Error → S → Type 0} {r : Run S A}
      → Ends P E r
      → ((a : A) (s : S) → P a s → Q a s)
      → ((e : Error) (s : S) → E e s → F e s)
      → Ends Q F r
  mono (returns p) weaken weaken_error = returns (weaken _ _ p)
  mono (raises e) weaken weaken_error = raises (weaken_error _ _ e)

  pub value : {r : Run S A} {a : A} {s : S} → Ends P E r → r ≡ done a s → P a s
  value (returns p) h = let e = done_injective h in subst₂ P e.0 e.1 p
  value (raises e) h = cc

  pub exception : {r : Run S A} {e : Error} {s : S} → Ends P E r → r ≡ thrown e s → E e s
  exception (returns p) h = cc
  exception (raises p) h = let e = thrown_injective h in subst₂ E e.0 e.1 p
