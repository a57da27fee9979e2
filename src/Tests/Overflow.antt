-- ===== src/Tests/Overflow.antt =====
-- A query of PersistentLazySegmentTree whose tags, multiplied by the length of a segment, leave the
-- range of long long.
use version_aware_lazy_segtr.Prelude.{◌≡◌, refl, Option, none, some, List, [], ◌∷◌}
use version_aware_lazy_segtr.Prelude.Int.{ℤ, pos, negsuc, ◌+ℤ◌, ◌-ℤ◌, ◌*ℤ◌}
use version_aware_lazy_segtr.Prelude.Result.{Error, overflow_error}
use version_aware_lazy_segtr.Prelude.Run.{Run, Action, done, thrown, reads, ◌>>◌}
use version_aware_lazy_segtr.Size.{canonical_node_count}
use version_aware_lazy_segtr.Domain.{validate_range_add}
use version_aware_lazy_segtr.Persistent.{
  PersistentLazySegmentTree, empty, build, update, query, materialize, build_replacement, install,
  initialize, validate_initialized, validate_version, validate_range, current_leaves, finish_update,
  try_update, range_add, range_sum,
}

-- 2^61 and -(2^63 - 1)
abbrev quarter : ℤ
quarter = pos 0x2000_0000_0000_0000

abbrev low : List ℤ
low = negsuc 0x7fff_ffff_ffff_fffe ∷ pos 0 ∷ pos 0 ∷ []

abbrev session : Action PersistentLazySegmentTree ℤ
session = do initialize low; range_add 0 2 quarter; range_add 0 2 quarter; reads (range_sum 2 0 1)

abbrev exception_of : {S A : Type 0} → Run S A → Option Error
exception_of (done a s) = none
exception_of (thrown e s) = some e

-- The elements are -(2^63 - 1) + 2^62, 2^62 and 2^62 at the end, and the first two add up to 1.
session-overflow : exception_of (session empty) ≡ some overflow_error
unfolding initialize install build_replacement build canonical_node_count range_add
    validate_initialized validate_version validate_range current_leaves validate_range_add
    try_update finish_update update range_sum query materialize ◌+ℤ◌ ◌-ℤ◌ ◌*ℤ◌
session-overflow = refl

exact_sum : negsuc 0x7fff_ffff_ffff_fffe +ℤ quarter +ℤ quarter +ℤ (quarter +ℤ quarter) ≡ pos 1
unfolding ◌+ℤ◌
exact_sum = refl
