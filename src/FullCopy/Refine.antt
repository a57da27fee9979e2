-- ===== src/FullCopy/Refine.antt =====
-- rangeAdd of FullCopyPersistentSegmentTree against the brute-force array.
use version_aware_lazy_segtr.Prelude.{ℕ}
use version_aware_lazy_segtr.Prelude.Int.{ℤ}
use version_aware_lazy_segtr.Prelude.Run.{Ends}
use version_aware_lazy_segtr.Policy.{IsLong}
use version_aware_lazy_segtr.BruteForce.{BruteForceArray}
use version_aware_lazy_segtr.Tagless.{TaglessTree}
use version_aware_lazy_segtr.Tagless.Represents.{Represents}
use version_aware_lazy_segtr.Tagless.Publish.{IsUpdate, Published, Rejected}
use version_aware_lazy_segtr.Tagless.Refine.{range_add-refines}
use version_aware_lazy_segtr.FullCopy.{full_copy_update, range_add}
use version_aware_lazy_segtr.FullCopy.Update.{full_copy_update-Makes}

pub full_copy_update-IsUpdate : IsUpdate full_copy_update
full_copy_update-IsUpdate = record {
  makes = λ v hv ql qr fuel h enough p q. full_copy_update-Makes v hv ql qr fuel h enough;
}

-- On a full-copy tree in step with a brute-force array, rangeAdd of a long long ends; it publishes
-- the version that the array adds to its newest one, under the same number, keeps the two in step
-- and leaves every older node and root as it was, or it throws, the tree is as it was, and the
-- exception is the first of the argument checks, or an overflow that the array throws too.
pub full_copy_refines :
    {tree : TaglessTree} {array : BruteForceArray}
    → Represents tree array
    → (left right : ℕ) (v : ℤ) → IsLong v
    → Ends
        (Published tree array left right v)
        (Rejected tree array left right v)
        (range_add left right v tree)
full_copy_refines rep left right v hv =
    range_add-refines full_copy_update-IsUpdate rep left right v hv
