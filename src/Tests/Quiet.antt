-- ===== src/Tests/Quiet.antt =====
-- A script over the persistent tree that cannot throw.
use version_aware_lazy_segtr.Prelude.{zero, suc, ◌+◌, ◌≡◌, List, [], ◌∷◌, arith, length}
use version_aware_lazy_segtr.Prelude.Int.{ℤ, pos, negsuc}
use version_aware_lazy_segtr.Prelude.Run.{done}
use version_aware_lazy_segtr.Segment.{of_list}
use version_aware_lazy_segtr.Domain.Envelope.{WithinBound}
use version_aware_lazy_segtr.Persistent.{PersistentLazySegmentTree, empty, version_count, size}
use version_aware_lazy_segtr.Persistent.Quiet.Script.{
  Addition, AllFit, none_left, and, script, script_returns,
}

abbrev values : List ℤ
values = pos 1 ∷ pos 2 ∷ negsuc 2 ∷ []

abbrev updates : List Addition
updates =
    record { left = 0; right = 1; value = pos 5 }
    ∷ record { left = 2; right = 2; value = pos 0 }
    ∷ record { left = 0; right = 2; value = negsuc 3 }
    ∷ []

values-WithinBound : WithinBound (of_list values) (length values) 3
values-WithinBound zero h = omega arith
values-WithinBound (suc zero) h = omega arith
values-WithinBound (suc (suc zero)) h = omega arith
values-WithinBound (suc (suc (suc k))) h = absurd (omega arith)

updates-AllFit : AllFit (length values) 5 updates
updates-AllFit =
    and (omega arith, omega arith, omega arith)
      (and (omega arith, omega arith, omega arith)
        (and (omega arith, omega arith, omega arith) none_left))

script_returns_example :
    (tree' : PersistentLazySegmentTree) × (script values updates empty ≡ done tt tree')
    × (version_count tree' ≡ 1 + length updates)
    × (size tree' ≡ length values)
script_returns_example =
    script_returns values updates 3 5 empty (omega arith) (omega arith) values-WithinBound
      updates-AllFit (omega arith)
