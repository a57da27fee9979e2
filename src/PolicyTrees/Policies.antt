-- ===== src/PolicyTrees/Policies.antt =====
-- The three policies of include/valseg/policy.hpp as parameters of the trees, with their laws.
use version_aware_lazy_segtr.Prelude.{
  ℕ, zero, suc, ◌≡◌, refl, sym, ap, ◌∙◌, arith, true, false, ◌==◌, inl, inr, Bool-cases,
}
use version_aware_lazy_segtr.Prelude.Int.{
  ℤ, pos, ◌+ℤ◌, ◌*ℤ◌, +ℤ_assoc, +ℤ-zero, zero-+ℤ, +ℤ_exchange, *ℤ-add, one_part, ltb_ℤ, +ℤ_parts,
  *ℤ-suc, *ℤ-zero,
}
use version_aware_lazy_segtr.Prelude.Result
use version_aware_lazy_segtr.Prelude.Result.{Result, ok, IsOverflow, Gives, gives}
use version_aware_lazy_segtr.Policy.{IsLong, eq_ℤ, maximum}
use version_aware_lazy_segtr.Policy.Arithmetic.{Exact, checked_add-Gives}
use version_aware_lazy_segtr.Policy.Interface.{Policy, Laws, Commutes}
use version_aware_lazy_segtr.Policy.SumAdd
use version_aware_lazy_segtr.Policy.SumAdd.Exact.{apply-Gives}
use version_aware_lazy_segtr.Policy.MinAdd
use version_aware_lazy_segtr.Policy.MinAdd.Laws.{combine-add, combine_either}

abbrev pub sum_add : Policy ℤ ℤ
sum_add = record {
  combine = SumAdd.combine;
  aggregate_identity = SumAdd.aggregate_identity;
  compose = SumAdd.compose;
  action_identity = SumAdd.action_identity;
  is_identity = λ f. eq_ℤ f (pos 0);
  apply = SumAdd.apply;
}

-- A result that is exact, as the laws state it.
fitting :
    {z : ℤ} {r : Result ℤ}
    → Gives (Exact z) IsOverflow r
    → Gives (λ c. (c ≡ z) × IsLong c) IsOverflow r
fitting h = Result.mono h (λ c (e, long). (e, rw e long)) (λ e bad. bad)

times_sum : (f g : ℤ) (n : ℕ) → (f +ℤ g) *ℤ pos n ≡ f *ℤ pos n +ℤ g *ℤ pos n
times_sum f g zero = rw (*ℤ-zero (f +ℤ g), *ℤ-zero f, *ℤ-zero g) (sym (+ℤ-zero (pos 0)))
times_sum f g (suc n) =
    rw (*ℤ-suc (f +ℤ g) n, *ℤ-suc f n, *ℤ-suc g n, times_sum f g n)
      (+ℤ_exchange f g (f *ℤ pos n) (g *ℤ pos n))

zero_times : (n : ℕ) → pos 0 *ℤ pos n ≡ pos 0
zero_times zero = *ℤ-zero (pos 0)
zero_times (suc n) = rw (*ℤ-suc (pos 0) n, zero_times n) (+ℤ-zero (pos 0))

zero_of : (f : ℤ) → eq_ℤ f (pos 0) ≡ true → f ≡ pos 0
zero_of f h = ground arith

+ℤ_comm : (a b : ℤ) → a +ℤ b ≡ b +ℤ a
+ℤ_comm a b = one_part (a +ℤ b) (b +ℤ a) (omega (arith, +ℤ_parts a b, +ℤ_parts b a))

pub sum_add_laws : Laws sum_add
unfolding SumAdd.combine SumAdd.compose
sum_add_laws = record {
  Fit = IsLong;
  Sound = λ a. Unit {0};
  Good = IsLong;
  Throws = IsOverflow;
  plus = ◌+ℤ◌;
  act = λ f a n. a +ℤ f *ℤ pos n;
  comp = ◌+ℤ◌;
  combine_gives = λ {a} {b} p q. fitting (checked_add-Gives a b p q);
  compose_gives = λ {f} {g} p q. fitting (checked_add-Gives f g p q);
  apply_gives = λ {f} {a} n positive p q. fitting (apply-Gives f a n p q);
  plus_assoc = +ℤ_assoc;
  plus_identity = λ {a} fit. +ℤ-zero a;
  identity_plus = λ {a} fit. zero-+ℤ a;
  identity_fit = (omega arith, omega arith);
  identity_good = (omega arith, omega arith);
  identity_known = refl;
  act_identity = λ {f} {a} n idle sound. rw (zero_of f idle, zero_times n) (+ℤ-zero a);
  act_comp = λ {f} {g} a n good_f good_g.
      rw (times_sum f g n, +ℤ_comm (f *ℤ pos n) (g *ℤ pos n))
        (sym (+ℤ_assoc a (g *ℤ pos n) (f *ℤ pos n)));
  act_plus = λ {f} a b m n good. rw (*ℤ-add f m n) (+ℤ_exchange a b (f *ℤ pos m) (f *ℤ pos n));
  act_sound = λ {f} {a} n good sound. tt;
}

shifts_commute : (a f g : ℤ) → (a +ℤ g) +ℤ f ≡ (a +ℤ f) +ℤ g
shifts_commute a f g = +ℤ_assoc a g f ∙ ap (λ x. a +ℤ x) (+ℤ_comm g f) ∙ sym (+ℤ_assoc a f g)

-- Its actions and its aggregates are the long longs.
pub sum_add_admits :
    (a : ℤ) → IsLong a → sum_add_laws.Good a × sum_add_laws.Fit a × sum_add_laws.Sound a
unfolding sum_add_laws
sum_add_admits a long = (long, long, tt)

pub sum_add-Commutes : Commutes sum_add_laws
unfolding sum_add_laws
sum_add-Commutes f g a good_f good_g = shifts_commute a (f *ℤ pos 1) (g *ℤ pos 1)

abbrev pub min_add : Policy ℤ ℤ
min_add = record {
  combine = λ a b. ok (MinAdd.combine a b);
  aggregate_identity = MinAdd.aggregate_identity;
  compose = MinAdd.compose;
  action_identity = MinAdd.action_identity;
  is_identity = λ f. eq_ℤ f (pos 0);
  apply = MinAdd.apply;
}

-- The minimum with the greatest long long, of which every long long is at most.
min_identity : (a : ℤ) → IsLong a → (MinAdd.combine a maximum ≡ a) × (MinAdd.combine maximum a ≡ a)
unfolding MinAdd.combine
min_identity a fit = (
  elim (Bool-cases (ltb_ℤ a maximum)) [
    | inl less ↦ rw less refl
    | inr more ↦ rw more (one_part maximum a (ground arith))
  ],
  elim (Bool-cases (ltb_ℤ maximum a)) [
    | inl less ↦ absurd (ground arith)
    | inr more ↦ rw more refl
  ],
)

min_fit : (a b : ℤ) → IsLong a → IsLong b → IsLong (MinAdd.combine a b)
min_fit a b p q = elim (combine_either a b) [ inl e ↦ rw e p | inr e ↦ rw e q ]

min_assoc :
    (a b c : ℤ) → MinAdd.combine (MinAdd.combine a b) c ≡ MinAdd.combine a (MinAdd.combine b c)
unfolding MinAdd.combine
min_assoc a b c = ground arith

pub min_add_laws : Laws min_add
unfolding MinAdd.combine MinAdd.compose MinAdd.apply
min_add_laws = record {
  Fit = IsLong;
  Sound = λ a. Unit {0};
  Good = IsLong;
  Throws = IsOverflow;
  plus = MinAdd.combine;
  act = λ f a n. a +ℤ f;
  comp = ◌+ℤ◌;
  combine_gives = λ {a} {b} p q. gives (refl, min_fit a b p q);
  compose_gives = λ {f} {g} p q. fitting (checked_add-Gives f g p q);
  apply_gives = λ {f} {a} n positive p q.
      let nonempty : (n == 0) ≡ false = ground arith in
      rw nonempty (fitting (checked_add-Gives a f q p));
  plus_assoc = min_assoc;
  plus_identity = λ {a} fit. (min_identity a fit).0;
  identity_plus = λ {a} fit. (min_identity a fit).1;
  identity_fit = (omega arith, omega arith);
  identity_good = (omega arith, omega arith);
  identity_known = refl;
  act_identity = λ {f} {a} n idle sound. rw (zero_of f idle) (+ℤ-zero a);
  act_comp = λ {f} {g} a n good_f good_g. rw (+ℤ_comm f g) (sym (+ℤ_assoc a g f));
  act_plus = λ {f} a b m n good. sym (combine-add a b f);
  act_sound = λ {f} {a} n good sound. tt;
}

pub min_add-Commutes : Commutes min_add_laws
unfolding min_add_laws
min_add-Commutes f g a good_f good_g = shifts_commute a f g
