-- ===== src/Tests/Policies.antt =====
-- The laws of the policies at small inputs.
use version_aware_lazy_segtr.Prelude.{◌≡◌, ◌≢◌, refl, arith}
use version_aware_lazy_segtr.Prelude.Int.{pos, negsuc, ◌+ℤ◌, ◌-ℤ◌}
use version_aware_lazy_segtr.Prelude.Result.{ok}
use version_aware_lazy_segtr.Policy.MinAdd
use version_aware_lazy_segtr.Policy.AffineSumMod.{Action, compose, apply}
use version_aware_lazy_segtr.Policy.AffineSumMod.Laws.{
  IsReduced, apply-compose, apply_not_commuting,
}

-- x -> 5x + 1 and x -> 2x + 3, modulo 7.
abbrev older : Action
older = record { scale = 5; shift = 1 }

abbrev newer : Action
newer = record { scale = 2; shift = 3 }

composed : compose 7 newer older ≡ record { scale = 3; shift = 5 }
unfolding compose
composed = refl

apply-compose_example : apply 7 (compose 7 newer older) 4 2 ≡ apply 7 newer (apply 7 older 4 2) 2
apply-compose_example =
    apply-compose 7 (omega arith) (omega arith) newer older 4 2 (omega arith, omega arith)
      (omega arith, omega arith)

apply_not_commuting_example :
    (g : Action) × (f : Action) × IsReduced 7 (omega arith) (omega arith) g
    × IsReduced 7 (omega arith) (omega arith) f
    × (apply 7 g (apply 7 f 0 1) 1 ≢ apply 7 f (apply 7 g 0 1) 1)
apply_not_commuting_example = apply_not_commuting 7 (omega arith) (omega arith)

moved_three : MinAdd.apply (negsuc 4) (pos 3) 1 ≡ ok (negsuc 1)
unfolding MinAdd.apply ◌+ℤ◌ ◌-ℤ◌
moved_three = refl

moved_one : MinAdd.apply (negsuc 4) (negsuc 1) 2 ≡ ok (negsuc 6)
unfolding MinAdd.apply ◌+ℤ◌ ◌-ℤ◌
moved_one = refl
