-- ===== src/PolicyTrees/Pushed.antt =====
-- PushedLazyTree of include/valseg/policy_trees.hpp: one state, changed in place, in two vectors where
-- the children of node are 2 node + 1 and 2 node + 2. Each recursion takes fuel for its depth and is
-- given the array size.
pub mod Frame
pub mod Holds
pub mod Tag
pub mod Push
pub mod Update
pub mod Query
pub mod Refine
pub mod Build
pub mod Restart
use version_aware_lazy_segtr.Prelude.{
  ℕ, zero, suc, ◌+◌, ◌-◌, ◌*◌, ◌==◌, ◌||◌, List, [], ◌∷◌, ltb, covers, if◌then◌else◌, length,
  get_elem?, set,
}
use version_aware_lazy_segtr.Prelude.Result
use version_aware_lazy_segtr.Prelude.Result.{Result, ok, err, fault, out_of_fuel, or_fault}
use version_aware_lazy_segtr.Prelude.Run.{Run, done, thrown, Action, pure, lift, reads, ◌>>=◌, ◌>>◌}
use version_aware_lazy_segtr.Prelude.Vector.{copies, element, assigned}
use version_aware_lazy_segtr.Size.{midpoint, lazy_storage_count}
use version_aware_lazy_segtr.Validation
use version_aware_lazy_segtr.Policy.Interface.{Policy}

pub record PushedLazyTree (A B : Type 0) : Type 0 where
  pub aggregates : List A
  pub tags : List B
  pub array_size : ℕ

-- The constructor of a tree over nothing.
abbrev pub empty : {A B : Type 0} → PushedLazyTree A B
empty = record { aggregates = []; tags = []; array_size = 0 }

module _ {A B : Type 0} where
  abbrev pub aggregate_at : ℕ → Action (PushedLazyTree A B) A
  aggregate_at node = reads λ tree. element tree.aggregates node

  abbrev pub tag_at : ℕ → Action (PushedLazyTree A B) B
  tag_at node = reads λ tree. element tree.tags node

  abbrev pub store_aggregate : ℕ → A → Action (PushedLazyTree A B) (Unit {0})
  store_aggregate node value = do
    aggregates ← reads (λ tree. assigned tree.aggregates node value)
    λ tree. done tt (record tree { aggregates = aggregates })

  abbrev pub store_tag : ℕ → B → Action (PushedLazyTree A B) (Unit {0})
  store_tag node value = do
    tags ← reads (λ tree. assigned tree.tags node value)
    λ tree. done tt (record tree { tags = tags })

module _ {A B : Type 0} (p : Policy A B) where
  unfoldable pub build :
      ℕ → List A → (node segment_left segment_right : ℕ) → Action (List A) (Unit {0})
  build zero values node segment_left segment_right = lift (err out_of_fuel)
  build (suc fuel) values node segment_left segment_right =
      if segment_left == segment_right
      then (do
        value ← lift (or_fault (get_elem? values segment_left))
        output ← reads (λ output. assigned output node value)
        λ old. done tt output)
      else (do
        let middle = midpoint segment_left segment_right
        build fuel values (2 * node + 1) segment_left middle
        build fuel values (2 * node + 2) (middle + 1) segment_right
        left ← reads (λ output. element output (2 * node + 1))
        right ← reads (λ output. element output (2 * node + 2))
        aggregate ← lift (p.combine left right)
        output ← reads (λ output. assigned output node aggregate)
        λ old. done tt output)

  -- tags[child] = Policy::compose(tags[node], tags[child])
  unfoldable pub hand_down : (node child : ℕ) → Action (PushedLazyTree A B) (Unit {0})
  hand_down node child = do
    tag ← tag_at node
    pending ← tag_at child
    composed ← lift (p.compose tag pending)
    store_tag child composed

  unfoldable pub push :
      (node segment_left segment_right : ℕ) → Action (PushedLazyTree A B) (Unit {0})
  unfolding hand_down
  push node segment_left segment_right = do
    tag ← tag_at node
    if p.is_identity tag then pure tt else (do
      aggregate ← aggregate_at node
      applied ← lift (p.apply tag aggregate (segment_right - segment_left + 1))
      store_aggregate node applied
      if segment_left == segment_right
          then pure tt
          else (do hand_down node (2 * node + 1); hand_down node (2 * node + 2))
      store_tag node p.action_identity)

  unfoldable pub update :
      ℕ
      → (node segment_left segment_right query_left query_right : ℕ) → B
      → Action (PushedLazyTree A B) (Unit {0})
  unfolding push
  update zero node segment_left segment_right query_left query_right action = lift (err out_of_fuel)
  update (suc fuel) node segment_left segment_right query_left query_right action = do
    push node segment_left segment_right
    if ltb segment_right query_left || ltb query_right segment_left
        then pure tt
        else if covers query_left query_right segment_left segment_right
        then (do
          tag ← tag_at node
          composed ← lift (p.compose action tag)
          store_tag node composed
          push node segment_left segment_right)
        else (do
          let middle = midpoint segment_left segment_right
          update fuel (2 * node + 1) segment_left middle query_left query_right action
          update fuel (2 * node + 2) (middle + 1) segment_right query_left query_right action
          left ← aggregate_at (2 * node + 1)
          right ← aggregate_at (2 * node + 2)
          aggregate ← lift (p.combine left right)
          store_aggregate node aggregate)

  unfoldable pub query :
      ℕ
      → (node segment_left segment_right query_left query_right : ℕ) → Action (PushedLazyTree A B) A
  unfolding push
  query zero node segment_left segment_right query_left query_right = lift (err out_of_fuel)
  query (suc fuel) node segment_left segment_right query_left query_right = do
    push node segment_left segment_right
    if ltb segment_right query_left || ltb query_right segment_left
        then pure p.aggregate_identity
        else if covers query_left query_right segment_left segment_right
        then aggregate_at node
        else (do
          let middle = midpoint segment_left segment_right
          left ← query fuel (2 * node + 1) segment_left middle query_left query_right
          right ← query fuel (2 * node + 2) (middle + 1) segment_right query_left query_right
          lift (p.combine left right))

  unfoldable pub build_replacement : List A → ℕ → Run (List A) (Unit {0})
  unfolding build
  build_replacement values storage_count =
      if length values == 0
      then done tt (copies storage_count p.aggregate_identity)
      else build (length values) values 0 0 (length values - 1)
          (copies storage_count p.aggregate_identity)

  -- The swaps at the end of initialize, which a throw does not reach.
  unfoldable pub install :
      List A
      → ℕ
      → PushedLazyTree A B
      → Run (List A) (Unit {0})
      → Run (PushedLazyTree A B) (Unit {0})
  install values storage_count tree (done _ new_aggregates) = done tt (record {
    aggregates = new_aggregates;
    tags = copies storage_count p.action_identity;
    array_size = length values;
  })
  install values storage_count tree (thrown e new_aggregates) = thrown e tree

  unfoldable pub initialize : List A → Action (PushedLazyTree A B) (Unit {0})
  unfolding lazy_storage_count build_replacement install
  initialize values = do
    storage_count ← lift (lazy_storage_count (length values))
    λ tree. install values storage_count tree (build_replacement values storage_count)

  -- The argument checks of rangeApply and rangeAggregate, in their order.
  unfoldable pub check_range : (left right : ℕ) → PushedLazyTree A B → Result (Unit {0})
  unfolding Validation.validate_non_empty Validation.validate_range
  check_range left right tree =
      Result.◌>>◌ (Validation.validate_non_empty tree.array_size)
        (Validation.validate_range tree.array_size left right)

  unfoldable pub range_apply : (left right : ℕ) → B → Action (PushedLazyTree A B) (Unit {0})
  unfolding check_range update
  range_apply left right action = do
    reads (check_range left right)
    λ tree. update tree.array_size 0 0 (tree.array_size - 1) left right action tree

  unfoldable pub range_aggregate : (left right : ℕ) → Action (PushedLazyTree A B) A
  unfolding check_range query
  range_aggregate left right = do
    reads (check_range left right)
    λ tree. query tree.array_size 0 0 (tree.array_size - 1) left right tree

  abbrev pub size : PushedLazyTree A B → ℕ
  size tree = tree.array_size
