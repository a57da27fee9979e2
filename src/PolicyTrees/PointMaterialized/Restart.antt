-- ===== src/PolicyTrees/PointMaterialized/Restart.antt =====
-- initialize of PointMaterializedPersistentTree against a history of elements.
use version_aware_lazy_segtr.Prelude.{
  ℕ, ◌-◌, ◌≤◌, ◌<◌, ◌≡◌, refl, inl, inr, List, [], ◌∷◌, arith, length, Bool-cases, eq_of_==, ◌==◌,
}
use version_aware_lazy_segtr.Prelude.Run.{and_then, pure, Run, Ends, returns, raises}
use version_aware_lazy_segtr.Size.Exact.{canonical_node_count-ok}
use version_aware_lazy_segtr.Policy.{long_max}
use version_aware_lazy_segtr.Arena.{no_node}
use version_aware_lazy_segtr.Policy.Interface.{Policy, Laws}
use version_aware_lazy_segtr.PolicyTrees.PointMaterialized.{
  Arena, PointMaterializedPersistentTree, build_replacement, install, initialize,
}
use version_aware_lazy_segtr.PolicyTrees.Build.{of_list, AllFit}
use version_aware_lazy_segtr.PolicyTrees.PointMaterialized.Update.{build-Makes}
use version_aware_lazy_segtr.PolicyTrees.PointMaterialized.Holds.{Makes}
use version_aware_lazy_segtr.PolicyTrees.PointMaterialized.Represents.{Represents, first_version}

module _ {A B : Type 0} {p : Policy A B} (laws : Laws p) where
  -- A tree with version 0 alone.
  abbrev pub Started : List A → Unit {0} → PointMaterializedPersistentTree A → Type 0
  Started values _ tree' =
      Represents laws tree' (of_list laws values ∷ []) × (tree'.array_size ≡ length values)

  pub materialized_initialize :
      (values : List A) (tree : PointMaterializedPersistentTree A)
      → AllFit laws values
      → length values ≤ long_max
      → Ends (Started values) (λ e tree'. (tree' ≡ tree) × laws.Throws e) (initialize p values tree)
  unfolding initialize build_replacement install
  materialized_initialize values tree all small = elim (Bool-cases (length values == 0)) [
    | inl nothing ↦
        let none_there = eq_of_== (length values) 0 nothing in
        rw nothing (
          returns (
            first_version laws [] no_node (length values) (of_list laws values)
                (λ some_element. absurd (omega arith)),
            refl,
          ))
    | inr some_value ↦
        let n = length values in
        let some_element : 0 < n = ground arith in
        let reserved = canonical_node_count-ok n small in
        rw (reserved, some_value)
          (install_version
            (build-Makes laws values all n [] 0 (n - 1) (omega arith) (omega arith) (omega arith)))
  ]
    where
      install_version :
          {run : Run (Arena A) ℕ}
          → Makes laws [] (of_list laws values) 0 (length values - 1) run
          → Ends
              (Started values)
              (λ e tree'. (tree' ≡ tree) × laws.Throws e)
              (install p values tree (and_then run (λ root. pure (root ∷ []))))
      install_version (returns {a = root} {s = nodes} (ext, h)) = returns (
        first_version laws nodes root (length values) (of_list laws values)
            (λ some_element. (h, λ k below. (all k below).1)),
        refl,
      )
      install_version (raises (bad, ext)) = raises (refl, bad)
