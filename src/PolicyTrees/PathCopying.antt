-- ===== src/PolicyTrees/PathCopying.antt =====
-- PathCopyingActionTree of include/valseg/policy_trees.hpp. The template's flag is a parameter: with
-- it the tree pushes on a partial descent, without it a copied node retains its tag. Each recursion
-- takes fuel for its depth and is given the array size.
use version_aware_lazy_segtr.Prelude.{
  ℕ, zero, suc, ◌+◌, ◌-◌, ◌==◌, ◌||◌, ◌&&◌, not, Bool, List, [], ◌∷◌, ◌++◌, ltb, leb, covers,
  if◌then◌else◌, length, get_elem?, take,
}
use version_aware_lazy_segtr.Prelude.Result
use version_aware_lazy_segtr.Prelude.Result.{Result, ok, err, out_of_fuel, or_fault}
use version_aware_lazy_segtr.Prelude.Run.{
  Run, done, thrown, Action, pure, lift, reads, and_then, ◌>>=◌, ◌>>◌,
}
use version_aware_lazy_segtr.Size.{midpoint, canonical_node_count}
use version_aware_lazy_segtr.Validation
use version_aware_lazy_segtr.Arena.{no_node, read, append, back}
use version_aware_lazy_segtr.Policy.Interface.{Policy}

pub record Node (A B : Type 0) : Type 0 where
  pub left_child : ℕ
  pub right_child : ℕ
  pub aggregate : A
  pub tag : B

abbrev pub node : {A B : Type 0} → ℕ → ℕ → A → B → Node A B
node l r a t = record { left_child = l; right_child = r; aggregate = a; tag = t }

abbrev pub Arena : Type 0 → Type 0 → Type 0
Arena A B = List (Node A B)

-- The local variables of a partial descent.
pub record Descent (B : Type 0) : Type 0 where
  pub left_child : ℕ
  pub right_child : ℕ
  pub retained : B

abbrev pub descent : {B : Type 0} → ℕ → ℕ → B → Descent B
descent l r t = record { left_child = l; right_child = r; retained = t }

pub record PathCopyingActionTree (A B : Type 0) : Type 0 where
  pub nodes : Arena A B
  pub roots : List ℕ
  pub array_size : ℕ

-- The constructor of a tree with no versions.
abbrev pub empty : {A B : Type 0} → PathCopyingActionTree A B
empty = record { nodes = []; roots = []; array_size = 0 }

module _ {A B : Type 0} (p : Policy A B) where
  unfoldable pub build : ℕ → List A → (segment_left segment_right : ℕ) → Action (Arena A B) ℕ
  unfolding append
  build zero values segment_left segment_right = lift (err out_of_fuel)
  build (suc fuel) values segment_left segment_right =
      if segment_left == segment_right
      then (do
        value ← lift (or_fault (get_elem? values segment_left))
        append (node no_node no_node value p.action_identity))
      else (do
        let middle = midpoint segment_left segment_right
        left_root ← build fuel values segment_left middle
        right_root ← build fuel values (middle + 1) segment_right
        left ← read left_root
        right ← read right_root
        aggregate ← lift (p.combine left.aggregate right.aggregate)
        append (node left_root right_root aggregate p.action_identity))

  unfoldable pub push_into : (source : ℕ) → B → (length : ℕ) → Action (Arena A B) ℕ
  unfolding append
  push_into source tag length = do
    child ← read source
    aggregate ← lift (p.apply tag child.aggregate length)
    composed ← lift (p.compose tag child.tag)
    append (node child.left_child child.right_child aggregate composed)

  -- The children and the tag with which a partial descent goes on.
  unfoldable pub descend :
      Bool → Node A B → (segment_left middle segment_right : ℕ) → Action (Arena A B) (Descent B)
  unfolding push_into
  descend push_on_partial_descent current segment_left middle segment_right =
      if push_on_partial_descent && not (p.is_identity current.tag)
      then (do
        left ← push_into current.left_child current.tag (middle - segment_left + 1)
        right ← push_into current.right_child current.tag (segment_right - middle)
        pure (descent left right p.action_identity))
      else pure (descent current.left_child current.right_child current.tag)

  unfoldable pub update :
      Bool
      → ℕ
      → (node_index segment_left segment_right query_left query_right : ℕ) → B
      → Action (Arena A B) ℕ
  unfolding append descend
  update push zero node_index segment_left segment_right query_left query_right action =
      lift (err out_of_fuel)
  update push (suc fuel) node_index segment_left segment_right query_left query_right action = do
    current ← read node_index
    let length = segment_right - segment_left + 1
    if covers query_left query_right segment_left segment_right
        then (do
          aggregate ← lift (p.apply action current.aggregate length)
          tag ← lift (p.compose action current.tag)
          append (node current.left_child current.right_child aggregate tag))
        else (do
          let middle = midpoint segment_left segment_right
          let go_left = λ (child : ℕ).
              update push fuel child segment_left middle query_left query_right action
          let go_right = λ (child : ℕ).
              update push fuel child (middle + 1) segment_right query_left query_right action
          found ← descend push current segment_left middle segment_right
          new_left ←
              if leb query_left middle then go_left found.left_child else pure found.left_child
          new_right ←
              if ltb middle query_right then go_right found.right_child else pure found.right_child
          left ← read new_left
          right ← read new_right
          children ← lift (p.combine left.aggregate right.aggregate)
          aggregate ← lift (p.apply found.retained children length)
          append (node new_left new_right aggregate found.retained))

  unfoldable pub query :
      ℕ
      → Arena A B
      → (node_index segment_left segment_right query_left query_right : ℕ) → B
      → Result A
  query zero nodes node_index segment_left segment_right query_left query_right inherited =
      err out_of_fuel
  query (suc fuel) nodes node_index segment_left segment_right query_left query_right inherited =
      if ltb segment_right query_left || ltb query_right segment_left
      then ok p.aggregate_identity
      else (Result.◌>>=◌ (or_fault (get_elem? nodes node_index)) λ current.
          if covers query_left query_right segment_left segment_right
          then p.apply inherited current.aggregate (segment_right - segment_left + 1)
          else let middle = midpoint segment_left segment_right in
            Result.◌>>=◌ (p.compose inherited current.tag) λ next.
              Result.◌>>=◌
                (query fuel nodes current.left_child segment_left middle query_left query_right
                  next)
                λ a.
                  Result.◌>>=◌
                    (query fuel nodes current.right_child (middle + 1) segment_right query_left
                      query_right next)
                    λ b. p.combine a b)

  -- The replacement nodes and roots of initialize. The size passed to reserve is calculated, and the
  -- reservation itself does not show.
  unfoldable pub build_replacement : List A → Run (Arena A B) (List ℕ)
  unfolding build canonical_node_count
  build_replacement values =
      if length values == 0
      then done (no_node ∷ []) []
      else and_then (lift (canonical_node_count (length values)) []) λ reserved. λ nodes.
        and_then (build (length values) values 0 (length values - 1) nodes) λ root. pure (root ∷ [])

  -- The swaps at the end of initialize, which a throw does not reach.
  unfoldable pub install :
      List A
      → PathCopyingActionTree A B
      → Run (Arena A B) (List ℕ)
      → Run (PathCopyingActionTree A B) (Unit {0})
  install values tree (done new_roots new_nodes) =
      done tt (record { nodes = new_nodes; roots = new_roots; array_size = length values })
  install values tree (thrown e new_nodes) = thrown e tree

  unfoldable pub initialize : List A → Action (PathCopyingActionTree A B) (Unit {0})
  unfolding build_replacement install
  initialize values tree = install values tree (build_replacement values)

  -- The argument checks of rangeApply, in their order.
  unfoldable pub check_update : (left right : ℕ) → PathCopyingActionTree A B → Result (Unit {0})
  unfolding Validation.validate_initialized Validation.validate_non_empty Validation.validate_range
  check_update left right tree = Result.◌>>◌ (Validation.validate_initialized (length tree.roots)) (
      Result.◌>>◌ (Validation.validate_non_empty tree.array_size)
        (Validation.validate_range tree.array_size left right))

  -- return roots.size() - 1
  abbrev pub last_version : Action (PathCopyingActionTree A B) ℕ
  last_version tree = done (length tree.roots - 1) tree

  -- roots.push_back(root)
  abbrev pub publish : ℕ → Action (PathCopyingActionTree A B) (Unit {0})
  publish root tree = done tt (record tree { roots = tree.roots ++ (root ∷ []) })

  -- The end of the try block, and its handler with rollBack.
  unfoldable pub finish_update :
      PathCopyingActionTree A B → Run (Arena A B) ℕ → Run (PathCopyingActionTree A B) (Unit {0})
  finish_update tree (done new_root nodes) =
      done tt (record tree { nodes = nodes; roots = tree.roots ++ (new_root ∷ []) })
  finish_update tree (thrown e nodes) =
      thrown e (record tree { nodes = take (length tree.nodes) nodes })

  unfoldable pub range_apply : Bool → (left right : ℕ) → B → Action (PathCopyingActionTree A B) ℕ
  unfolding check_update update finish_update
  range_apply push left right action = do
    reads (check_update left right)
    root ← reads (λ tree. or_fault (back tree.roots))
    if p.is_identity action then publish root else (λ tree.
        finish_update tree
          (update push tree.array_size root 0 (tree.array_size - 1) left right action tree.nodes))
    last_version

  -- The argument checks of rangeAggregate, in their order.
  unfoldable pub check_query :
      (version left right : ℕ) → PathCopyingActionTree A B → Result (Unit {0})
  unfolding Validation.validate_initialized Validation.validate_version
      Validation.validate_non_empty Validation.validate_range
  check_query version left right tree =
      Result.◌>>◌ (Validation.validate_initialized (length tree.roots)) (
        Result.◌>>◌ (Validation.validate_version version (length tree.roots)) (
          Result.◌>>◌ (Validation.validate_non_empty tree.array_size)
            (Validation.validate_range tree.array_size left right)))

  unfoldable pub range_aggregate : (version left right : ℕ) → PathCopyingActionTree A B → Result A
  unfolding check_query query
  range_aggregate version left right tree = Result.◌>>◌ (check_query version left right tree) (
      Result.◌>>=◌ (or_fault (get_elem? tree.roots version)) λ root.
        query tree.array_size tree.nodes root 0 (tree.array_size - 1) left right p.action_identity)

  abbrev pub version_count : PathCopyingActionTree A B → ℕ
  version_count tree = length tree.roots

  abbrev pub size : PathCopyingActionTree A B → ℕ
  size tree = tree.array_size

  abbrev pub node_count : PathCopyingActionTree A B → ℕ
  node_count tree = length tree.nodes
