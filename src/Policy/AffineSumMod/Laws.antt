-- ===== src/Policy/AffineSumMod/Laws.antt =====
-- The laws of an action policy, for AffineSumModPolicy of include/valseg/policy.hpp.
use native.Mathlib.Nat.{
  mod-lt, mod-eq_of_lt, mod-mod, mod-add-mod, add-mod, add-mul-mod_self_right, mod-add-div',
  mul-le-mul_left, mul-le-mul_right,
}
use version_aware_lazy_segtr.Prelude.{
  ℕ, ◌+◌, ◌-◌, ◌*◌, ◌/◌, ◌^◌, ◌%◌, ◌<◌, ◌≡◌, ◌≢◌, sym, ap, ◌∙◌, arith,
}
use version_aware_lazy_segtr.Policy.AffineSumMod.{
  Action, action, add_reduced, multiply_reduced, combine, compose, apply,
}

split_product : (a b r q m : ℕ) → r + q * m ≡ a → a * b ≡ r * b + q * b * m
split_product a b r q m h = rw (← h) (omega arith)

mod-mul-mod : (a b m : ℕ) → a % m * b % m ≡ a * b % m
mod-mul-mod a b m =
    let e = split_product a b (a % m) (a / m) m (mod-add-div' a m) in
    sym (ap (λ x. x % m) e ∙ add-mul-mod_self_right (a % m * b) (a / m * b) m)

mul-mod-mod : (a b m : ℕ) → a * (b % m) % m ≡ a * b % m
mul-mod-mod a b m =
    let e : a * (b % m) ≡ b % m * a = omega arith in
    let e' : a * b ≡ b * a = omega arith in rw (e, e') (mod-mul-mod b a m)

module _ (m : ℕ) (least : 1 < m) (bound : m < 2 ^ 32) where
  -- Reduced operands do not wrap round.
  add_reduced-mod : (a b : ℕ) → a < m → b < m → add_reduced m a b ≡ (a + b) % m
  unfolding add_reduced
  add_reduced-mod a b p q =
      let fits = mod-eq_of_lt {n = a + b} {m = 2 ^ 64} (omega arith) in rw fits

  multiply_reduced-mod : (a b : ℕ) → a < m → b < m → multiply_reduced m a b ≡ a * b % m
  unfolding multiply_reduced
  multiply_reduced-mod a b p q =
      let first = mul-le-mul_left {m = b} {n = 2 ^ 32 - 1} a (omega arith) in
      let second = mul-le-mul_right {m = a} {n = 2 ^ 32 - 1} (2 ^ 32 - 1) (omega arith) in
      let fits = mod-eq_of_lt {n = a * b} {m = 2 ^ 64} (omega arith) in rw fits

  -- The coefficients of an action are reduced.
  abbrev pub IsReduced : Action → Type 0
  IsReduced f = (f.scale < m) × (f.shift < m)

  below : (a : ℕ) → a % m < m
  below a = mod-lt a (omega arith)

  pub combine-mod : (x y : ℕ) → combine m x y ≡ (x + y) % m
  unfolding combine
  combine-mod x y = add_reduced-mod (x % m) (y % m) (below x) (below y) ∙ sym (add-mod x y m)

  pub apply-mod :
      (f : Action) (x len : ℕ) → IsReduced f → apply m f x len ≡ (f.scale * x + f.shift * len) % m
  unfolding apply
  apply-mod f x len (p, q) =
      let scaled = multiply_reduced-mod f.scale (x % m) p (below x) ∙ mul-mod-mod f.scale x m in
      let shifted =
        multiply_reduced-mod f.shift (len % m) q (below len) ∙ mul-mod-mod f.shift len m in
      rw (scaled, shifted)
        (add_reduced-mod (f.scale * x % m) (f.shift * len % m) (below (f.scale * x))
            (below (f.shift * len))
          ∙ sym (add-mod (f.scale * x) (f.shift * len) m))

  compose-scale :
      (g f : Action) → IsReduced g → IsReduced f → (compose m g f).scale ≡ g.scale * f.scale % m
  unfolding compose
  compose-scale g f (p, q) (p', q') =
      rw (multiply_reduced-mod g.scale f.scale p p') (mod-mod (g.scale * f.scale) m)

  compose-shift :
      (g f : Action)
      → IsReduced g
      → IsReduced f
      → (compose m g f).shift ≡ (g.scale * f.shift + g.shift) % m
  unfolding compose
  compose-shift g f (p, q) (p', q') =
      let product = multiply_reduced-mod g.scale f.shift p q' in
      rw (product, add_reduced-mod (g.scale * f.shift % m) g.shift (below (g.scale * f.shift)) q)
        (mod-mod (g.scale * f.shift % m + g.shift) m ∙ mod-add-mod (g.scale * f.shift) m g.shift)

  pub compose-IsReduced : (g f : Action) → IsReduced (compose m g f)
  unfolding compose
  compose-IsReduced g f = (below _, below _)

  -- Reduction inside a sum of products.
  inner_reduced : (a b x y : ℕ) → (a % m * x + b % m * y) % m ≡ (a * x + b * y) % m
  inner_reduced a b x y = rw (
    add-mod (a % m * x) (b % m * y) m,
    mod-mul-mod a x m,
    mod-mul-mod b y m,
    ← add-mod (a * x) (b * y) m,
  )

  outer_reduced : (a c d : ℕ) → (a * (c % m) + d) % m ≡ (a * c + d) % m
  outer_reduced a c d = rw (add-mod (a * (c % m)) d m, mul-mod-mod a c m, ← add-mod (a * c) d m)

  -- With a modulus above 1 and below 2^32 and reduced coefficients, applying a composed affine
  -- action is applying the older one and then the newer one.
  pub apply-compose :
      (g f : Action) (x len : ℕ)
      → IsReduced g
      → IsReduced f
      → apply m (compose m g f) x len ≡ apply m g (apply m f x len) len
  apply-compose g f x len hg hf =
      rw
        (
          apply-mod (compose m g f) x len (compose-IsReduced g f),
          compose-scale g f hg hf,
          compose-shift g f hg hf,
          apply-mod f x len hf,
          apply-mod g ((f.scale * x + f.shift * len) % m) len hg,
          inner_reduced (g.scale * f.scale) (g.scale * f.shift + g.shift) x len,
          outer_reduced g.scale (f.scale * x + f.shift * len) (g.shift * len),
        )
        (ap (λ z. z % m) (polynomials g.scale g.shift f.scale f.shift x len))
    where
      polynomials : (a b c d x n : ℕ) → a * c * x + (a * d + b) * n ≡ a * (c * x + d * n) + b * n
      polynomials a b c d x n = omega arith

  -- With a modulus above 1 and below 2^32 and reduced coefficients, an affine action on the
  -- combined aggregate of two adjacent segments is the combination of its effects on both.
  pub apply-combine_affine :
      (f : Action) (x y lx ly : ℕ)
      → IsReduced f
      → apply m f (combine m x y) (lx + ly) ≡ combine m (apply m f x lx) (apply m f y ly)
  apply-combine_affine f x y lx ly hf =
      rw
        (
          combine-mod x y,
          apply-mod f ((x + y) % m) (lx + ly) hf,
          apply-mod f x lx hf,
          apply-mod f y ly hf,
          combine-mod ((f.scale * x + f.shift * lx) % m) ((f.scale * y + f.shift * ly) % m),
        )
        (outer_reduced f.scale (x + y) (f.shift * (lx + ly))
          ∙ ap (λ z. z % m) (distributed f.scale f.shift x y lx ly)
          ∙ add-mod (f.scale * x + f.shift * lx) (f.scale * y + f.shift * ly) m)
    where
      distributed : (a b x y n k : ℕ) → a * (x + y) + b * (n + k) ≡ a * x + b * n + (a * y + b * k)
      distributed a b x y n k = omega arith

  -- The identity, on a reduced aggregate.
  pub apply-action_identity : (x len : ℕ) → x < m → apply m (action m 1 0) x len ≡ x
  apply-action_identity x len p =
      let one = mod-eq_of_lt {n = 1} {m = m} least in
      let none = mod-eq_of_lt {n = 0} {m = m} (omega arith) in
      let whole : 1 * x + 0 * len ≡ x = omega arith in
      rw (apply-mod (action m 1 0) x len (below 1, below 0), one, none, whole) (mod-eq_of_lt p)

  -- With a modulus above 1 and below 2^32, there are two reduced affine actions whose effects on a
  -- segment of one element depend on their order.
  pub apply_not_commuting :
      (g : Action) × (f : Action) × IsReduced g
      × IsReduced f
      × (apply m g (apply m f 0 1) 1 ≢ apply m f (apply m g 0 1) 1)
  apply_not_commuting = (
    clear,
    add_one,
    (omega arith, omega arith),
    (least, least),
    λ same. let e : 0 ≡ 1 = sym (cleared (apply m add_one 0 1)) ∙ same ∙ added in omega arith,
  )
    where
      clear : Action
      clear = record { scale = 0; shift = 0 }

      add_one : Action
      add_one = record { scale = 1; shift = 1 }

      cleared : (y : ℕ) → apply m clear y 1 ≡ 0
      cleared y =
          let none : 0 * y + 0 * 1 ≡ 0 = omega arith in
          apply-mod clear y 1 (omega arith, omega arith) ∙ rw none (mod-eq_of_lt (omega arith))

      added : apply m add_one (apply m clear 0 1) 1 ≡ 1
      added = rw (cleared 0, apply-mod add_one 0 1 (least, least)) (mod-eq_of_lt least)
