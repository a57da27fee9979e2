-- ===== src/Policy/AffineSumMod.antt =====
-- AffineSumModPolicy of include/valseg/policy.hpp: affine actions over range sums, modulo an integer.
-- A std::uint64_t is a number, and its wrap-around is written out.
pub mod Laws
use version_aware_lazy_segtr.Prelude.{ℕ, ◌+◌, ◌*◌, ◌^◌, ◌%◌}

pub record Action : Type 0 where
  pub scale : ℕ
  pub shift : ℕ

module _ (modulus : ℕ) where
  -- The constructor, which reduces both coefficients.
  abbrev pub action : ℕ → ℕ → Action
  action action_scale action_shift = record {
    scale = action_scale % modulus;
    shift = action_shift % modulus;
  }

  unfoldable pub add_reduced : ℕ → ℕ → ℕ
  add_reduced left right = (left + right) % 2 ^ 64 % modulus

  unfoldable pub multiply_reduced : ℕ → ℕ → ℕ
  multiply_reduced left right = left * right % 2 ^ 64 % modulus

  unfoldable pub combine : ℕ → ℕ → ℕ
  unfolding add_reduced
  combine left right = add_reduced (left % modulus) (right % modulus)

  abbrev pub aggregate_identity : ℕ
  aggregate_identity = 0

  unfoldable pub compose : Action → Action → Action
  unfolding add_reduced multiply_reduced
  compose newer older =
      action (multiply_reduced newer.scale older.scale)
        (add_reduced (multiply_reduced newer.scale older.shift) newer.shift)

  abbrev pub action_identity : Action
  action_identity = action 1 0

  unfoldable pub apply : Action → ℕ → ℕ → ℕ
  unfolding add_reduced multiply_reduced
  apply f aggregate length =
      let reduced_length = length % modulus in
      add_reduced (multiply_reduced f.scale (aggregate % modulus))
        (multiply_reduced f.shift reduced_length)
