-- ===== src/PolicyTrees/AffinePolicy.antt =====
-- AffineSumModPolicy of include/valseg/policy.hpp as a parameter of the trees, with its laws.
use version_aware_lazy_segtr.Prelude.{
  ℕ, ◌+◌, ◌*◌, ◌^◌, ◌%◌, ◌<◌, ◌≡◌, refl, ◌∙◌, arith, Bool, true, ◌&&◌, ◌==◌,
}
use version_aware_lazy_segtr.Prelude.Result.{ok, gives}
use version_aware_lazy_segtr.Policy.Interface.{Policy, Laws}
use version_aware_lazy_segtr.Policy.AffineSumMod
use version_aware_lazy_segtr.Policy.AffineSumMod.{Action}
use version_aware_lazy_segtr.Policy.AffineSumMod.Laws.{
  IsReduced, combine-mod, apply-mod, compose-IsReduced, apply-compose, apply-combine_affine,
  apply-action_identity,
}
use native.Mathlib.Nat.{mod-lt, mod-add-mod, add-mod-mod, mod-eq_of_lt}

-- Action::operator==
unfoldable pub eq_action : Action → Action → Bool
eq_action f g = (f.scale == g.scale) && (f.shift == g.shift)

abbrev pub affine : ℕ → Policy ℕ Action
affine m = record {
  combine = λ a b. ok (AffineSumMod.combine m a b);
  aggregate_identity = AffineSumMod.aggregate_identity m;
  compose = λ f g. ok (AffineSumMod.compose m f g);
  action_identity = AffineSumMod.action_identity m;
  is_identity = λ f. eq_action f (AffineSumMod.action_identity m);
  apply = λ f a n. ok (AffineSumMod.apply m f a n);
}

module _ (m : ℕ) (least : 1 < m) (bound : m < 2 ^ 32) where
  below : (a : ℕ) → a % m < m
  below a = mod-lt a (omega arith)

  combine_below : (a b : ℕ) → AffineSumMod.combine m a b < m
  combine_below a b = rw (combine-mod m least bound a b) (below (a + b))

  apply_below : (f : Action) (a n : ℕ) → IsReduced m least bound f → AffineSumMod.apply m f a n < m
  apply_below f a n good =
      rw (apply-mod m least bound f a n good) (below (f.scale * a + f.shift * n))

  combine_assoc :
      (a b c : ℕ)
      → AffineSumMod.combine m (AffineSumMod.combine m a b) c
        ≡ AffineSumMod.combine m a (AffineSumMod.combine m b c)
  combine_assoc a b c =
      let e : a + b + c ≡ a + (b + c) = omega arith in
      rw
        (
          combine-mod m least bound (AffineSumMod.combine m a b) c,
          combine-mod m least bound a b,
          combine-mod m least bound a (AffineSumMod.combine m b c),
          combine-mod m least bound b c,
          mod-add-mod (a + b) m c,
          add-mod-mod a (b + c) m,
          e,
        )
        refl

  combine_zero :
      (a : ℕ) → a < m → (AffineSumMod.combine m a 0 ≡ a) × (AffineSumMod.combine m 0 a ≡ a)
  combine_zero a small =
      let right : a + 0 ≡ a = omega arith in
      let left : 0 + a ≡ a = omega arith in
      (
        combine-mod m least bound a 0 ∙ rw right (mod-eq_of_lt small),
        combine-mod m least bound 0 a ∙ rw left (mod-eq_of_lt small),
      )

  identity_acts :
      (f : Action) (a n : ℕ)
      → eq_action f (AffineSumMod.action_identity m) ≡ true
      → a < m
      → AffineSumMod.apply m f a n ≡ a
  unfolding eq_action
  identity_acts f a n idle small =
      let e : f.scale ≡ 1 % m = ground arith in
      let e' : f.shift ≡ 0 % m = ground arith in
      let same : f ≡ AffineSumMod.action_identity m = rw (← e, ← e') refl in
      rw same (apply-action_identity m least bound a n small)

  same_parts : eq_action (AffineSumMod.action_identity m) (AffineSumMod.action_identity m) ≡ true
  unfolding eq_action
  same_parts = ground arith

  pub affine_laws : Laws (affine m)
  unfolding eq_action
  affine_laws = record {
    Fit = λ a. a < m;
    Sound = λ a. a < m;
    Good = IsReduced m least bound;
    Throws = λ e. ⊥;
    plus = AffineSumMod.combine m;
    act = AffineSumMod.apply m;
    comp = AffineSumMod.compose m;
    combine_gives = λ {a} {b} p q. gives (refl, combine_below a b);
    compose_gives = λ {f} {g} p q. gives (refl, compose-IsReduced m least bound f g);
    apply_gives = λ {f} {a} n positive p q. gives (refl, apply_below f a n p);
    plus_assoc = combine_assoc;
    plus_identity = λ {a} fit. (combine_zero a fit).0;
    identity_plus = λ {a} fit. (combine_zero a fit).1;
    identity_fit = omega arith;
    identity_good = (below 1, below 0);
    identity_known = same_parts;
    act_identity = λ {f} {a} n idle sound. identity_acts f a n idle sound;
    act_comp = λ {f} {g} a n good_f good_g. apply-compose m least bound f g a n good_f good_g;
    act_plus = λ {f} a b k n good. apply-combine_affine m least bound f a b k n good;
    act_sound = λ {f} {a} n good sound. apply_below f a n good;
  }

  -- Its actions are the reduced ones, and its aggregates the reduced numbers.
  pub affine_admits :
      (f : Action) (a : ℕ)
      → IsReduced m least bound f
      → a < m
      → affine_laws.Good f × affine_laws.Fit a × affine_laws.Sound a
  unfolding affine_laws
  affine_admits f a reduced small = (reduced, small, small)
