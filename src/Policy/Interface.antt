-- ===== src/Policy/Interface.antt =====
-- What the templates of include/valseg/policy_trees.hpp take as their parameter: a policy of
-- include/valseg/policy.hpp, and the laws that its comment asks of one.
use version_aware_lazy_segtr.Prelude.{ℕ, ◌+◌, ◌<◌, ◌≡◌, Bool, true}
use version_aware_lazy_segtr.Prelude.Result.{Result, Error, Gives}

pub record Policy (Aggregate Action : Type 0) : Type 0 where
  pub combine : Aggregate → Aggregate → Result Aggregate
  pub aggregate_identity : Aggregate
  pub compose : Action → Action → Result Action
  pub action_identity : Action
  pub is_identity : Action → Bool
  pub apply : Action → Aggregate → ℕ → Result Aggregate

-- The operations without their limits, and what the code's operations return and throw. Fit is what
-- holds of every aggregate that an operation returns, Good of every action, and Sound of the value
-- of every element.
pub record Laws {A B : Type 0} (p : Policy A B) : Type 1 where
  pub Fit : A → Type 0
  pub Sound : A → Type 0
  pub Good : B → Type 0
  pub Throws : Error → Type 0
  pub plus : A → A → A
  pub act : B → A → ℕ → A
  pub comp : B → B → B
  pub combine_gives :
      {a b : A} → Fit a → Fit b → Gives (λ c. (c ≡ plus a b) × Fit c) Throws (p.combine a b)
  pub compose_gives :
      {f g : B} → Good f → Good g → Gives (λ h. (h ≡ comp f g) × Good h) Throws (p.compose f g)
  pub apply_gives :
      {f : B} {a : A} (n : ℕ)
      → 0 < n
      → Good f
      → Fit a
      → Gives (λ c. (c ≡ act f a n) × Fit c) Throws (p.apply f a n)
  pub plus_assoc : (a b c : A) → plus (plus a b) c ≡ plus a (plus b c)
  pub plus_identity : {a : A} → Fit a → plus a p.aggregate_identity ≡ a
  pub identity_plus : {a : A} → Fit a → plus p.aggregate_identity a ≡ a
  pub identity_fit : Fit p.aggregate_identity
  pub identity_good : Good p.action_identity
  pub identity_known : p.is_identity p.action_identity ≡ true
  pub act_identity : {f : B} {a : A} (n : ℕ) → p.is_identity f ≡ true → Sound a → act f a n ≡ a
  pub act_comp :
      {f g : B} (a : A) (n : ℕ) → Good f → Good g → act (comp f g) a n ≡ act f (act g a n) n
  pub act_plus :
      {f : B} (a b : A) (m n : ℕ) → Good f → act f (plus a b) (m + n) ≡ plus (act f a m) (act f b n)
  pub act_sound : {f : B} {a : A} (n : ℕ) → Good f → Sound a → Sound (act f a n)

-- kInducedActionsCommute
abbrev pub Commutes : {A B : Type 0} {p : Policy A B} → Laws p → Type 0
Commutes {A} {B} laws =
    (f g : B) (a : A)
    → laws.Good f
    → laws.Good g
    → laws.act f (laws.act g a 1) 1 ≡ laws.act g (laws.act f a 1) 1
