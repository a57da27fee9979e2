-- ===== src/Prelude/Tests.antt =====
-- Boolean tests on the native numbers, the conditional, and splits that keep their equation.
use Prim.Native.Nat.{ℕ, ◌≤◌, ◌<◌, compare, Ordering}
use mathlib.Core.Path.{◌≡◌, refl}
use mathlib.Core.Logic.{◌⊎◌, inl, inr}
use mathlib.Core.Bool.{Bool, true, false, ◌&&◌, ◌||◌}
use native.Mathlib.Omega.{arith}

abbrev pub ltb : ℕ → ℕ → Bool
ltb a b = elim (compare a b) [ Ordering.lt ↦ true | _ ↦ false ]

abbrev pub leb : ℕ → ℕ → Bool
leb a b = elim (compare a b) [ Ordering.gt ↦ false | _ ↦ true ]

infix 50 ◌==◌
abbrev pub ◌==◌ : ℕ → ℕ → Bool
a == b = elim (compare a b) [ Ordering.eq ↦ true | _ ↦ false ]

infix 1 if◌then◌else◌
abbrev pub if◌then◌else◌ {ℓ} : {A : Type ℓ} → Bool → A → A → A
if true then x else y = x
if false then x else y = y

pub Bool-cases : (b : Bool) → (b ≡ true) ⊎ (b ≡ false)
Bool-cases true = inl refl
Bool-cases false = inr refl

pub eq_of_== : (a b : ℕ) → (a == b) ≡ true → a ≡ b
eq_of_== a b h = ground arith

pub ne_of_== : (a b : ℕ) → (a == b) ≡ false → a ≡ b → ⊥
ne_of_== a b h e = ground arith

-- How one inclusive interval covers another, as the code tests it.
abbrev pub covers : ℕ → ℕ → ℕ → ℕ → Bool
covers ql qr sl sr = leb ql sl && leb sr qr

pub covers→le : (ql qr sl sr : ℕ) → covers ql qr sl sr ≡ true → (ql ≤ sl) × (sr ≤ qr)
covers→le ql qr sl sr h = ground arith

pub not_covers : (ql qr sl sr : ℕ) → covers ql qr sl sr ≡ false → (sl < ql) ⊎ (qr < sr)
not_covers ql qr sl sr h = ground arith

pub leb→le : (a b : ℕ) → leb a b ≡ true → a ≤ b
leb→le a b h = ground arith

pub leb→lt : (a b : ℕ) → leb a b ≡ false → b < a
leb→lt a b h = ground arith

pub ltb→lt : (a b : ℕ) → ltb a b ≡ true → a < b
ltb→lt a b h = ground arith

pub ltb→le : (a b : ℕ) → ltb a b ≡ false → b ≤ a
ltb→le a b h = ground arith

-- How one interval misses another, as the code tests it.
pub misses→lt : (ql qr sl sr : ℕ) → (ltb sr ql || ltb qr sl) ≡ true → (sr < ql) ⊎ (qr < sl)
misses→lt ql qr sl sr h = ground arith

pub not_misses : (ql qr sl sr : ℕ) → (ltb sr ql || ltb qr sl) ≡ false → (ql ≤ sr) × (sl ≤ qr)
not_misses ql qr sl sr h = ground arith
