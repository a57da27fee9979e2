-- ===== src/Prelude/Vector.antt =====
-- std::vector with a fixed size: its constructor, and access by index.
use version_aware_lazy_segtr.Prelude.{
  ℕ, zero, suc, ◌<◌, ◌≡◌, refl, true, arith, some, List, [], ◌∷◌, ltb, if◌then◌else◌, length, set,
  get_elem?, lt_length_of_get_elem?,
}
use version_aware_lazy_segtr.Prelude.Result.{Result, ok, err, fault, or_fault}

-- std::vector<T>(count, value)
abbrev pub copies : {A : Type 0} → ℕ → A → List A
copies zero value = []
copies (suc count) value = value ∷ copies count value

-- v[i], and v[i] = x
abbrev pub element : {A : Type 0} → List A → ℕ → Result A
element v i = or_fault (get_elem? v i)

abbrev pub assigned : {A : Type 0} → List A → ℕ → A → Result (List A)
assigned v i x = if ltb i (length v) then ok (set v i x) else err fault

-- A write of an entry that is there.
pub assigned-ok :
    {A : Type 0} (xs : List A) (i : ℕ) (x y : A)
    → get_elem? xs i ≡ some y
    → assigned xs i x ≡ ok (set xs i x)
assigned-ok xs i x y h =
    let inside : ltb i (length xs) ≡ true = ground (arith, lt_length_of_get_elem? xs i y h) in
    rw inside

pub length-copies : {A : Type 0} (n : ℕ) (x : A) → length (copies n x) ≡ n
length-copies zero x = refl
length-copies (suc n) x = omega (arith, length-copies n x)

pub get_elem?-copies : {A : Type 0} (n k : ℕ) (x : A) → k < n → get_elem? (copies n x) k ≡ some x
get_elem?-copies zero k x h = absurd (omega arith)
get_elem?-copies (suc n) zero x h = refl
get_elem?-copies (suc n) (suc k) x h = get_elem?-copies n k x (omega arith)
