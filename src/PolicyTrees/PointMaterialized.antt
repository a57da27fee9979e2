-- ===== src/PolicyTrees/PointMaterialized.antt =====
-- PointMaterializedPersistentTree of include/valseg/policy_trees.hpp: no tags, every update goes down
-- to the leaves of its range.
pub mod Holds
pub mod Update
pub mod Query
pub mod Represents
pub mod Refine
pub mod History
pub mod Restart
use version_aware_lazy_segtr.Prelude.{
  ℕ, zero, suc, ◌+◌, ◌-◌, ◌==◌, ◌||◌, List, [], ◌∷◌, ◌++◌, ltb, leb, covers, if◌then◌else◌, length,
  get_elem?, take,
}
use version_aware_lazy_segtr.Prelude.Result
use version_aware_lazy_segtr.Prelude.Result.{Result, ok, err, out_of_fuel, or_fault}
use version_aware_lazy_segtr.Prelude.Run.{
  Run, done, thrown, Action, pure, lift, reads, and_then, ◌>>=◌, ◌>>◌,
}
use version_aware_lazy_segtr.Size.{midpoint, canonical_node_count}
use version_aware_lazy_segtr.Validation
use version_aware_lazy_segtr.Arena.{no_node, read, append, back}
use version_aware_lazy_segtr.Policy.Interface.{Policy}

pub record Node (A : Type 0) : Type 0 where
  pub left_child : ℕ
  pub right_child : ℕ
  pub aggregate : A

abbrev pub node : {A : Type 0} → ℕ → ℕ → A → Node A
node l r a = record { left_child = l; right_child = r; aggregate = a }

abbrev pub Arena : Type 0 → Type 0
Arena A = List (Node A)

pub record PointMaterializedPersistentTree (A : Type 0) : Type 0 where
  pub nodes : Arena A
  pub roots : List ℕ
  pub array_size : ℕ

-- The constructor of a tree with no versions.
abbrev pub empty : {A : Type 0} → PointMaterializedPersistentTree A
empty = record { nodes = []; roots = []; array_size = 0 }

module _ {A B : Type 0} (p : Policy A B) where
  -- The record over two children: read both, combine, append.
  unfoldable pub join : (new_left new_right : ℕ) → Action (Arena A) ℕ
  unfolding append
  join new_left new_right = do
    left ← read new_left
    right ← read new_right
    aggregate ← lift (p.combine left.aggregate right.aggregate)
    append (node new_left new_right aggregate)

  unfoldable pub build : ℕ → List A → (segment_left segment_right : ℕ) → Action (Arena A) ℕ
  unfolding append join
  build zero values segment_left segment_right = lift (err out_of_fuel)
  build (suc fuel) values segment_left segment_right =
      if segment_left == segment_right
      then (do
        value ← lift (or_fault (get_elem? values segment_left))
        append (node no_node no_node value))
      else (do
        let middle = midpoint segment_left segment_right
        left_root ← build fuel values segment_left middle
        right_root ← build fuel values (middle + 1) segment_right
        join left_root right_root)

  unfoldable pub update :
      ℕ
      → (node_index segment_left segment_right query_left query_right : ℕ) → B
      → Action (Arena A) ℕ
  unfolding append join
  update zero node_index segment_left segment_right query_left query_right action =
      lift (err out_of_fuel)
  update (suc fuel) node_index segment_left segment_right query_left query_right action = do
    current ← read node_index
    if segment_left == segment_right
        then (do
          aggregate ← lift (p.apply action current.aggregate 1)
          append (node no_node no_node aggregate))
        else (do
          let middle = midpoint segment_left segment_right
          let go_left =
              update fuel current.left_child segment_left middle query_left query_right action
          let go_right =
              update fuel current.right_child (middle + 1) segment_right query_left query_right
                action
          new_left ← if leb query_left middle then go_left else pure current.left_child
          new_right ← if ltb middle query_right then go_right else pure current.right_child
          join new_left new_right)

  unfoldable pub query :
      ℕ → Arena A → (node_index segment_left segment_right query_left query_right : ℕ) → Result A
  query zero nodes node_index segment_left segment_right query_left query_right = err out_of_fuel
  query (suc fuel) nodes node_index segment_left segment_right query_left query_right =
      if ltb segment_right query_left || ltb query_right segment_left
      then ok p.aggregate_identity
      else (Result.◌>>=◌ (or_fault (get_elem? nodes node_index)) λ current.
          if covers query_left query_right segment_left segment_right
          then ok current.aggregate
          else let middle = midpoint segment_left segment_right in
            Result.◌>>=◌
              (query fuel nodes current.left_child segment_left middle query_left query_right)
              λ a.
                Result.◌>>=◌
                  (query fuel nodes current.right_child (middle + 1) segment_right query_left
                    query_right)
                  λ b. p.combine a b)

  unfoldable pub build_replacement : List A → Run (Arena A) (List ℕ)
  unfolding build canonical_node_count
  build_replacement values =
      if length values == 0
      then done (no_node ∷ []) []
      else and_then (lift (canonical_node_count (length values)) []) λ reserved. λ nodes.
        and_then (build (length values) values 0 (length values - 1) nodes) λ root. pure (root ∷ [])

  -- The swaps at the end of initialize, which a throw does not reach.
  unfoldable pub install :
      List A
      → PointMaterializedPersistentTree A
      → Run (Arena A) (List ℕ)
      → Run (PointMaterializedPersistentTree A) (Unit {0})
  install values tree (done new_roots new_nodes) =
      done tt (record { nodes = new_nodes; roots = new_roots; array_size = length values })
  install values tree (thrown e new_nodes) = thrown e tree

  unfoldable pub initialize : List A → Action (PointMaterializedPersistentTree A) (Unit {0})
  unfolding build_replacement install
  initialize values tree = install values tree (build_replacement values)

  -- The argument checks of rangeApply, in their order.
  unfoldable pub check_update :
      (left right : ℕ) → PointMaterializedPersistentTree A → Result (Unit {0})
  unfolding Validation.validate_initialized Validation.validate_non_empty Validation.validate_range
  check_update left right tree = Result.◌>>◌ (Validation.validate_initialized (length tree.roots)) (
      Result.◌>>◌ (Validation.validate_non_empty tree.array_size)
        (Validation.validate_range tree.array_size left right))

  -- The end of the try block, and its handler with rollBack.
  unfoldable pub finish_update :
      PointMaterializedPersistentTree A
      → Run (Arena A) ℕ
      → Run (PointMaterializedPersistentTree A) (Unit {0})
  finish_update tree (done new_root nodes) =
      done tt (record tree { nodes = nodes; roots = tree.roots ++ (new_root ∷ []) })
  finish_update tree (thrown e nodes) =
      thrown e (record tree { nodes = take (length tree.nodes) nodes })

  unfoldable pub range_apply : (left right : ℕ) → B → Action (PointMaterializedPersistentTree A) ℕ
  unfolding check_update update finish_update
  range_apply left right action = do
    reads (check_update left right)
    root ← reads (λ tree. or_fault (back tree.roots))
    if p.is_identity action
        then (λ tree. done tt (record tree { roots = tree.roots ++ (root ∷ []) }))
        else (λ tree.
            finish_update tree
              (update tree.array_size root 0 (tree.array_size - 1) left right action tree.nodes))
    λ tree. done (length tree.roots - 1) tree

  -- The argument checks of rangeAggregate, in their order.
  unfoldable pub check_query :
      (version left right : ℕ) → PointMaterializedPersistentTree A → Result (Unit {0})
  unfolding Validation.validate_initialized Validation.validate_version
      Validation.validate_non_empty Validation.validate_range
  check_query version left right tree =
      Result.◌>>◌ (Validation.validate_initialized (length tree.roots)) (
        Result.◌>>◌ (Validation.validate_version version (length tree.roots)) (
          Result.◌>>◌ (Validation.validate_non_empty tree.array_size)
            (Validation.validate_range tree.array_size left right)))

  unfoldable pub range_aggregate :
      (version left right : ℕ) → PointMaterializedPersistentTree A → Result A
  unfolding check_query query
  range_aggregate version left right tree = Result.◌>>◌ (check_query version left right tree) (
      Result.◌>>=◌ (or_fault (get_elem? tree.roots version))
        λ root. query tree.array_size tree.nodes root 0 (tree.array_size - 1) left right)

  abbrev pub version_count : PointMaterializedPersistentTree A → ℕ
  version_count tree = length tree.roots

  abbrev pub size : PointMaterializedPersistentTree A → ℕ
  size tree = tree.array_size

  abbrev pub node_count : PointMaterializedPersistentTree A → ℕ
  node_count tree = length tree.nodes
