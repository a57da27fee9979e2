-- ===== src/PolicyTrees/Pushed/Restart.antt =====
-- initialize of PushedLazyTree.
use version_aware_lazy_segtr.Prelude.{
  ◌-◌, ◌*◌, ◌≤◌, ◌<◌, ◌≡◌, ◌==◌, refl, ◌⊎◌, inl, inr, arith, Bool-cases, ne_of_==, List, length,
}
use version_aware_lazy_segtr.Prelude.Result.{IsOverflow}
use version_aware_lazy_segtr.Prelude.Run
use version_aware_lazy_segtr.Prelude.Run.{Run, Ends, returns, raises, done, lift, reads, ◌>>=◌}
use version_aware_lazy_segtr.Prelude.Vector.{copies, length-copies}
use version_aware_lazy_segtr.Size.{size_max, lazy_storage_count}
use version_aware_lazy_segtr.Size.Exact.{checked_size_multiply-exact}
use version_aware_lazy_segtr.Policy.Interface.{Policy, Laws}
use version_aware_lazy_segtr.Lazy.Room.{root_room}
use version_aware_lazy_segtr.PolicyTrees.Build.{of_list, AllFit}
use version_aware_lazy_segtr.PolicyTrees.Pushed.{
  PushedLazyTree, build_replacement, install, initialize,
}
use version_aware_lazy_segtr.PolicyTrees.Pushed.Holds.{Settled-Holds}
use version_aware_lazy_segtr.PolicyTrees.Pushed.Refine.{Represents}
use version_aware_lazy_segtr.PolicyTrees.Pushed.Build.{over, build-Builds}

module _ {A B : Type 0} {p : Policy A B} (laws : Laws p) where
  built :
      (values : List A) (all : AllFit laws values)
      → 4 * length values ≤ size_max
      → Ends
          (λ w output.
            Represents laws (over laws values all (4 * length values) output) (of_list laws values))
          (λ e output. laws.Throws e)
          (build_replacement p values (4 * length values))
  unfolding build_replacement
  built values all small = elim (Bool-cases (length values == 0)) [
    | inl none_left ↦ rw none_left (returns (λ h. absurd (ground arith)))
    | inr more ↦
        let some_element : 0 < length values = ground (arith, ne_of_== (length values) 0 more) in
        let (k, room) = root_room (length values) some_element (omega arith) in
        rw more (
          Run.mono
            (build-Builds laws values all (4 * length values) (length values) k
              (copies (4 * length values) p.aggregate_identity) 0 0 (length values - 1)
              (length-copies (4 * length values) p.aggregate_identity) room (omega arith)
              (omega arith) (omega arith))
            (λ w output (size, frame, h) some_one. Settled-Holds laws h) (λ e s bad. bad))
  ]

  installed :
      (values : List A) (all : AllFit laws values) (tree : PushedLazyTree A B)
      {run : Run (List A) (Unit {0})}
      → 4 * length values ≤ size_max
      → Ends
          (λ w output.
            Represents laws (over laws values all (4 * length values) output) (of_list laws values))
          (λ e output. laws.Throws e)
          run
      → Ends
          (λ w tree'.
            Represents laws tree' (of_list laws values) × (tree'.array_size ≡ length values))
          (λ e tree'.
            (tree' ≡ tree)
            × ((IsOverflow e × (size_max < 4 * length values))
                ⊎ ((4 * length values ≤ size_max) × laws.Throws e)))
          (install p values (4 * length values) tree run)
  unfolding install
  installed values all tree small (returns h) = returns (h, refl)
  installed values all tree small (raises bad) = raises (refl, inr (small, bad))

  -- For a policy with the laws, and a vector of aggregates that the laws admit, initialize of the
  -- in-place tree ends; the tree stands for the vector, or it throws an overflow if four times the
  -- length is no std::size_t, or else an exception of the policy, and the tree is as it was.
  pub initialize-replaces :
      (values : List A) (tree : PushedLazyTree A B)
      → AllFit laws values
      → Ends
          (λ w tree'.
            Represents laws tree' (of_list laws values) × (tree'.array_size ≡ length values))
          (λ e tree'.
            (tree' ≡ tree)
            × ((IsOverflow e × (size_max < 4 * length values))
                ⊎ ((4 * length values ≤ size_max) × laws.Throws e)))
          (initialize p values tree)
  unfolding initialize lazy_storage_count
  initialize-replaces values tree all =
      Run.bind_lift _ tree (checked_size_multiply-exact 4 (length values))
        (λ count (exact, fits). rw exact (
          let small : 4 * length values ≤ size_max = omega arith in
          installed values all tree small (built values all small)))
        (λ e (is, large). (refl, inl (is, large)))
