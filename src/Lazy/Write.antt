-- ===== src/Lazy/Write.antt =====
-- build, validateUpdate and update of src/lazy_segment_tree.cpp.
use version_aware_lazy_segtr.Prelude.{
  ℕ, zero, suc, ◌+◌, ◌*◌, ◌==◌, List, ltb, leb, covers, if◌then◌else◌, length,
}
use version_aware_lazy_segtr.Prelude.Int.{ℤ}
use version_aware_lazy_segtr.Prelude.Result
use version_aware_lazy_segtr.Prelude.Result.{Result, ok, err, fault, out_of_fuel, or_fault}
use version_aware_lazy_segtr.Prelude.Run.{Action, pure, lift, reads, ◌>>=◌, ◌>>◌}
use version_aware_lazy_segtr.Policy.{checked_add}
use version_aware_lazy_segtr.Policy.SumAdd.{apply}
use version_aware_lazy_segtr.Size.{midpoint, inclusive_length}
use version_aware_lazy_segtr.Lazy.State.{
  LazySegmentTree, element, store, store_sum, store_tag, sum_at, tag_at,
}

unfoldable pub build :
    ℕ → List ℤ → (node segment_left segment_right : ℕ) → Action (List ℤ) (Unit {0})
unfolding checked_add
build zero values node segment_left segment_right = lift (err out_of_fuel)
build (suc fuel) values node segment_left segment_right =
    if segment_left == segment_right
    then (do value ← lift (element values segment_left); store node value)
    else (do
      let middle = midpoint segment_left segment_right
      build fuel values (2 * node + 1) segment_left middle
      build fuel values (2 * node + 2) (middle + 1) segment_right
      left ← reads (λ sums. element sums (2 * node + 1))
      right ← reads (λ sums. element sums (2 * node + 2))
      sum ← lift (checked_add left right)
      store node sum)

-- The preflight of an update: the sum that the node will have. It writes nothing.
unfoldable pub validate_update :
    ℕ
    → LazySegmentTree
    → (node segment_left segment_right query_left query_right : ℕ) → ℤ
    → Result ℤ
unfolding checked_add apply inclusive_length
validate_update zero tree node segment_left segment_right query_left query_right value =
    err out_of_fuel
validate_update (suc fuel) tree node segment_left segment_right query_left query_right value =
    let middle = midpoint segment_left segment_right in
    Result.◌>>=◌ (inclusive_length segment_left segment_right) λ length.
      if covers query_left query_right segment_left segment_right
      then (Result.◌>>=◌ (element tree.lazy node) λ tag.
          Result.◌>>◌ (checked_add tag value)
            (Result.◌>>=◌ (element tree.tree node) λ sum. apply value sum length))
      else (Result.◌>>=◌ (element tree.tree (2 * node + 1)) λ old_left.
          Result.◌>>=◌ (element tree.tree (2 * node + 2)) λ old_right.
            Result.◌>>=◌
              (if leb query_left middle
                then validate_update fuel tree (2 * node + 1) segment_left middle query_left
                    query_right value
                else ok old_left)
              λ left_sum.
                Result.◌>>=◌
                  (if ltb middle query_right
                    then validate_update fuel tree (2 * node + 2) (middle + 1) segment_right
                        query_left query_right value
                    else ok old_right)
                  λ right_sum. Result.◌>>=◌ (element tree.lazy node) λ tag.
                    Result.◌>>=◌ (checked_add left_sum right_sum)
                      λ children. apply tag children length)

unfoldable pub update :
    ℕ
    → (node segment_left segment_right query_left query_right : ℕ) → ℤ
    → Action LazySegmentTree (Unit {0})
unfolding checked_add apply inclusive_length
update zero node segment_left segment_right query_left query_right value = lift (err out_of_fuel)
update (suc fuel) node segment_left segment_right query_left query_right value = do
  length ← lift (inclusive_length segment_left segment_right)
  if covers query_left query_right segment_left segment_right
      then (do
        old_sum ← sum_at node
        sum ← lift (apply value old_sum length)
        store_sum node sum
        old_tag ← tag_at node
        tag ← lift (checked_add old_tag value)
        store_tag node tag)
      else (do
        let middle = midpoint segment_left segment_right
        let go_left = update fuel (2 * node + 1) segment_left middle query_left query_right value
        let go_right =
            update fuel (2 * node + 2) (middle + 1) segment_right query_left query_right value
        if leb query_left middle then go_left else pure tt
        if ltb middle query_right then go_right else pure tt
        tag ← tag_at node
        left ← sum_at (2 * node + 1)
        right ← sum_at (2 * node + 2)
        children ← lift (checked_add left right)
        sum ← lift (apply tag children length)
        store_sum node sum)
