-- ===== src/Persistent/Refine.antt =====
-- rangeAdd of PersistentLazySegmentTree against the brute-force array.
use version_aware_lazy_segtr.Prelude.{
  ℕ, ◌≡◌, refl, sym, inl, inr, true, false, arith, covers, Bool-cases,
}
use version_aware_lazy_segtr.Prelude.Int.{ℤ, pos, +ℤ-zero}
use version_aware_lazy_segtr.Prelude.Result.{Error, ok, err, Result-cases}
use version_aware_lazy_segtr.Prelude.Run
use version_aware_lazy_segtr.Prelude.Run.{Run, Ends, returns, raises, lift}
use version_aware_lazy_segtr.Policy.{IsLong, eq_ℤ}
use version_aware_lazy_segtr.Segment.{Values, of_list, add_range}
use version_aware_lazy_segtr.Segment.Canonical.{Canonical-congr}
use version_aware_lazy_segtr.BruteForce.{BruteForceArray}
use version_aware_lazy_segtr.Arena.{Extends-refl}
use version_aware_lazy_segtr.Persistent.{
  PersistentLazySegmentTree, validate_initialized, validate_range, range_add,
}
use version_aware_lazy_segtr.Persistent.Holds.{Holds-congr}
use version_aware_lazy_segtr.Persistent.Represents.{Represents, newest}
use version_aware_lazy_segtr.Persistent.Publish.{
  checks, checks_facts, Published, Rejected, guard-Gives, new_version, try_update-Ends, whole,
  some_element,
}

module _ (tree : PersistentLazySegmentTree) (array : BruteForceArray) (left right : ℕ) (v : ℤ)
    (e : Error) where
  not_started :
      validate_initialized tree ≡ err e
      → Ends
          (Published tree array left right v)
          (Rejected tree left right)
          (range_add left right v tree)
  unfolding range_add
  not_started bad = rw bad (raises (refl, inl (rw bad)))

  not_ranged :
      validate_initialized tree ≡ ok tt
      → validate_range left right tree ≡ err e
      → Ends
          (Published tree array left right v)
          (Rejected tree left right)
          (range_add left right v tree)
  unfolding range_add
  not_ranged started bad = rw (started, bad) (raises (refl, inl (rw (started, bad))))

module _ {tree : PersistentLazySegmentTree} {array : BruteForceArray} (rep : Represents tree array)
    (left right : ℕ) (v : ℤ) (hv : IsLong v) (fits : checks tree left right ≡ ok tt) where
  module _ (started : validate_initialized tree ≡ ok tt)
      (ranged : validate_range left right tree ≡ ok tt) where
    -- A nonzero action: the guard, the try block, and the guard's new bound.
    changed :
        eq_ℤ v (pos 0) ≡ false
        → Ends
            (Published tree array left right v)
            (Rejected tree left right)
            (range_add left right v tree)
    unfolding range_add
    changed nonzero =
        let (root, at_root, (xs, at, version)) = newest rep (checks_facts tree left right fits).0 in
        rw (started, ranged, nonzero)
          (Run.bind_lift _ tree (guard-Gives rep left right v hv fits root at_root xs at version)
            (λ b (c, bounded).
              Run.bind _
                (Run.mono (try_update-Ends rep left right v hv fits root at_root xs at version)
                  (λ u s h. h) (λ e s (same, is). (same, inr (fits, is))))
                (λ u tree' (nodes, j, e, (ext, h)). rw e (
                  returns (
                    new_version rep left right v hv fits root at_root xs at version nodes j b ext h
                      c bounded))))
            (λ e is. (refl, inr (fits, is))))

    -- A zero action: the newest root once more.
    unchanged :
        eq_ℤ v (pos 0) ≡ true
        → Ends
            (Published tree array left right v)
            (Rejected tree left right)
            (range_add left right v tree)
    unfolding range_add
    unchanged zero_value =
        let (root, at_root, (xs, at, version)) = newest rep (checks_facts tree left right fits).0 in
        let same = added_nothing (of_list xs) in
        rw (started, ranged, zero_value, at_root)
          (returns (
            new_version rep left right v hv fits root at_root xs at version tree.nodes root
              tree.numeric_domain (Extends-refl tree.nodes)
              (Holds-congr (whole rep left right v hv fits root at_root xs at version)
                (λ k p q. sym (same k)))
              (Canonical-congr
                (version.contract
                  (some_element rep left right v hv fits root at_root xs at version))
                (λ k p q. sym (same k)))
              (λ k p. rw (same k) (rep.bounded xs at k p))))
      where
        v-zero : v ≡ pos 0
        v-zero = ground arith

        added_nothing : (f : Values) (k : ℕ) → add_range f left right v k ≡ f k
        added_nothing f k = elim (Bool-cases (covers left right k k)) [
          | inl on ↦ rw (on, v-zero) (+ℤ-zero (f k))
          | inr off ↦ rw off
        ]

-- On a tree in step with a brute-force array, rangeAdd of a long long ends; it publishes the
-- version that the array adds to its newest one, under the same number, keeps the two in step and
-- leaves every older node and root as it was, or it throws, the tree is as it was, and the
-- exception is the first of the argument checks, or an overflow if they pass.
pub range_add-refines :
    {tree : PersistentLazySegmentTree} {array : BruteForceArray}
    → Represents tree array
    → (left right : ℕ) (v : ℤ) → IsLong v
    → Ends
        (Published tree array left right v)
        (Rejected tree left right)
        (range_add left right v tree)
range_add-refines {tree} {array} rep left right v hv =
    elim (Result-cases (validate_initialized tree)) [
      | inr (e, bad) ↦ not_started tree array left right v e bad
      | inl (u, started) ↦ elim (Result-cases (validate_range left right tree)) [
        | inr (e, bad) ↦ not_ranged tree array left right v e started bad
        | inl (u, ranged) ↦ elim (Bool-cases (eq_ℤ v (pos 0))) [
          | inl zero_value ↦
              unchanged rep left right v hv (rw (started, ranged)) started ranged zero_value
          | inr nonzero ↦ changed rep left right v hv (rw (started, ranged)) started ranged nonzero
        ]
      ]
    ]
