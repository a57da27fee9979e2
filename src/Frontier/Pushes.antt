-- ===== src/Frontier/Pushes.antt =====
-- PushCountingModel of include/valseg/frontier.hpp: the tags that a copy-on-push tree has at its
-- canonical nodes, where the children of node are 2 node + 1 and 2 node + 2, and the pushes of an
-- update. The policy is a parameter, and the recursion takes fuel for its depth and is given the
-- number of elements.
pub mod Tags
pub mod Mirrors
pub mod Push
pub mod Child
pub mod Join
pub mod Update
pub mod Appends
pub mod Start
pub mod Session
use version_aware_lazy_segtr.Prelude.{
  ℕ, zero, suc, ◌+◌, ◌-◌, ◌*◌, ◌==◌, not, List, ltb, leb, covers, if◌then◌else◌, set, get_elem?,
}
use version_aware_lazy_segtr.Prelude.Result
use version_aware_lazy_segtr.Prelude.Result.{Result, ok, err, invalid_argument, out_of_fuel}
use version_aware_lazy_segtr.Prelude.Run.{Run, done, thrown, Action, pure, lift, reads, ◌>>=◌, ◌>>◌}
use version_aware_lazy_segtr.Prelude.Vector.{copies, element, assigned}
use version_aware_lazy_segtr.Size.{midpoint, lazy_storage_count, checked_size_add}
use version_aware_lazy_segtr.Policy.Interface.{Policy}
use version_aware_lazy_segtr.Frontier.{validate_frontier_range}

pub record PushCountingModel (B : Type 0) : Type 0 where
  pub array_size : ℕ
  pub tags : List B

unfoldable pub validate_size : ℕ → Result ℕ
validate_size n = if n == 0 then err invalid_argument else ok n

module _ {A B : Type 0} (p : Policy A B) where
  -- The constructor.
  unfoldable pub push_counting_model : ℕ → Result (PushCountingModel B)
  unfolding validate_size lazy_storage_count
  push_counting_model n = Result.◌>>=◌ (validate_size n) λ array_size.
      Result.◌>>=◌ (lazy_storage_count n) λ storage_count.
        ok (record { array_size = array_size; tags = copies storage_count p.action_identity })

  abbrev pub tag_at : ℕ → Action (List B) B
  tag_at node = reads λ tags. element tags node

  abbrev pub store_tag : ℕ → B → Action (List B) (Unit {0})
  store_tag node value = do
    written ← reads (λ tags. assigned tags node value)
    λ tags. done tt written

  -- tags[child] = Policy::compose(tags[node], tags[child])
  unfoldable pub hand_down_tag : (node child : ℕ) → Action (List B) (Unit {0})
  hand_down_tag node child = do
    tag ← tag_at node
    pending ← tag_at child
    composed ← lift (p.compose tag pending)
    store_tag child composed

  -- The pushes at one node: one where its tag is not the identity.
  unfoldable pub push_tag : (node : ℕ) → Action (List B) ℕ
  unfolding hand_down_tag
  push_tag node = do
    tag ← tag_at node
    if not (p.is_identity tag)
        then (do
          hand_down_tag node (2 * node + 1)
          hand_down_tag node (2 * node + 2)
          store_tag node p.action_identity
          pure 1)
        else pure 0

  unfoldable pub update :
      ℕ → (node segment_left segment_right left right : ℕ) → B → Action (List B) ℕ
  unfolding push_tag checked_size_add
  update zero node segment_left segment_right left right action = lift (err out_of_fuel)
  update (suc fuel) node segment_left segment_right left right action =
      let middle = midpoint segment_left segment_right in
      let go_left = update fuel (2 * node + 1) segment_left middle left right action in
      let go_right = update fuel (2 * node + 2) (middle + 1) segment_right left right action in
      if covers left right segment_left segment_right
      then (do
        tag ← tag_at node
        composed ← lift (p.compose action tag)
        store_tag node composed
        pure 0)
      else (do
        pushes ← push_tag node
        pushes ←
            if leb left middle
            then (do below ← go_left; lift (checked_size_add pushes below))
            else pure pushes
        if ltb middle right
            then (do below ← go_right; lift (checked_size_add pushes below))
            else pure pushes)

  -- The tags that an update leaves, with the model around them.
  unfoldable pub with_tags : PushCountingModel B → Run (List B) ℕ → Run (PushCountingModel B) ℕ
  with_tags model (done pushes tags) = done pushes (record model { tags = tags })
  with_tags model (thrown e tags) = thrown e (record model { tags = tags })

  unfoldable pub apply : (left right : ℕ) → B → Action (PushCountingModel B) ℕ
  unfolding validate_frontier_range update with_tags
  apply left right action = do
    reads (λ model. validate_frontier_range model.array_size left right)
    if p.is_identity action then pure 0 else (λ model.
        with_tags model
          (update model.array_size 0 0 (model.array_size - 1) left right action model.tags))
