-- ===== src/Tagless.antt =====
-- The operations that FullCopyPersistentSegmentTree and PointOnlyPersistentSegmentTree share
-- (src/full_copy_persistent_segment_tree.cpp, src/point_only_persistent_segment_tree.cpp): all but
-- the update of the arena, which is a parameter. Each recursion takes fuel for its depth and is
-- given the array size.
mod Nodes
pub mod Holds
pub mod Step
pub mod Build
pub mod Query
pub mod Represents
pub mod Growth
pub mod Publish
pub mod Refine
pub mod History
pub mod Restart
pub use Nodes.{Node, node, Arena}
unfoldable pub use Nodes.{join, build, query}
use version_aware_lazy_segtr.Prelude.{
  ℕ, ◌-◌, List, [], ◌∷◌, ◌++◌, ◌==◌, if◌then◌else◌, length, get_elem?, take,
}
use version_aware_lazy_segtr.Prelude.Int.{ℤ, pos}
use version_aware_lazy_segtr.Prelude.Result
use version_aware_lazy_segtr.Prelude.Result.{Result, or_fault}
use version_aware_lazy_segtr.Prelude.Run.{
  Run, done, thrown, Action, pure, lift, reads, and_then, ◌>>=◌, ◌>>◌,
}
use version_aware_lazy_segtr.Policy.{eq_ℤ}
use version_aware_lazy_segtr.Size.{canonical_node_count}
use version_aware_lazy_segtr.Validation
use version_aware_lazy_segtr.Arena.{no_node, back}

pub record TaglessTree : Type 0 where
  pub nodes : Arena
  pub roots : List ℕ
  pub array_size : ℕ

-- The constructor of a tree with no versions.
abbrev pub empty : TaglessTree
empty = record { nodes = []; roots = []; array_size = 0 }

-- The replacement nodes and roots of initialize. The size passed to reserve is calculated, and the
-- calculation may throw; the reservation itself does not show.
unfoldable pub build_replacement : List ℤ → Run Arena (List ℕ)
build_replacement values =
    if length values == 0
    then done (no_node ∷ []) []
    else (do
      lift (canonical_node_count (length values))
      root ← build (length values) values 0 (length values - 1)
      pure (root ∷ []))
        []

-- The swap at the end of initialize, which a throw does not reach.
unfoldable pub install : List ℤ → TaglessTree → Run Arena (List ℕ) → Run TaglessTree (Unit {0})
install values tree (done new_roots new_nodes) =
    done tt (record { nodes = new_nodes; roots = new_roots; array_size = length values })
install values tree (thrown e new_nodes) = thrown e tree

unfoldable pub initialize : List ℤ → Action TaglessTree (Unit {0})
unfolding build_replacement install
initialize values tree = install values tree (build_replacement values)

unfoldable pub validate_initialized : TaglessTree → Result (Unit {0})
unfolding Validation.validate_initialized
validate_initialized tree = Validation.validate_initialized (length tree.roots)

unfoldable pub validate_version : ℕ → TaglessTree → Result (Unit {0})
unfolding Validation.validate_version
validate_version version tree = Validation.validate_version version (length tree.roots)

unfoldable pub validate_range : (left right : ℕ) → TaglessTree → Result (Unit {0})
unfolding Validation.validate_non_empty Validation.validate_range
validate_range left right tree =
    Result.◌>>◌ (Validation.validate_non_empty tree.array_size)
      (Validation.validate_range tree.array_size left right)

-- roots.back()
abbrev pub latest_root : TaglessTree → Result ℕ
latest_root tree = or_fault (back tree.roots)

-- roots.push_back(root)
abbrev pub publish : ℕ → Action TaglessTree (Unit {0})
publish root tree = done tt (record tree { roots = tree.roots ++ (root ∷ []) })

-- return roots.size() - 1
abbrev pub last_version : Action TaglessTree ℕ
last_version tree = done (length tree.roots - 1) tree

-- The end of the try block of rangeAdd, and its handler, which takes the arena back to the checkpoint.
unfoldable pub finish_update : TaglessTree → Run Arena ℕ → Run TaglessTree (Unit {0})
finish_update tree (done new_root nodes) =
    done tt (record tree { nodes = nodes; roots = tree.roots ++ (new_root ∷ []) })
finish_update tree (thrown e nodes) =
    let checkpoint = length tree.nodes in thrown e (record tree { nodes = take checkpoint nodes })

-- An update of the arena: fuel, a node with its segment, the range, and the value.
abbrev pub Update : Type 0
Update = ℕ → (node_index segment_left segment_right query_left query_right : ℕ) → ℤ → Action Arena ℕ

unfoldable pub try_update : Update → (left right : ℕ) → ℤ → Action TaglessTree (Unit {0})
unfolding finish_update
try_update update left right value tree = finish_update tree (
    and_then (lift (latest_root tree) tree.nodes)
      λ root. update tree.array_size root 0 (tree.array_size - 1) left right value)

unfoldable pub range_add : Update → (left right : ℕ) → ℤ → Action TaglessTree ℕ
unfolding validate_initialized validate_range try_update
range_add update left right value = do
  reads validate_initialized
  reads (validate_range left right)
  if eq_ℤ value (pos 0)
      then (do root ← reads latest_root; publish root; last_version)
      else (do try_update update left right value; last_version)

unfoldable pub range_sum : (version left right : ℕ) → TaglessTree → Result ℤ
unfolding validate_initialized validate_version validate_range
range_sum version left right tree = Result.◌>>◌ (validate_initialized tree) (
    Result.◌>>◌ (validate_version version tree) (
      Result.◌>>◌ (validate_range left right tree) (
        Result.◌>>=◌ (or_fault (get_elem? tree.roots version))
          λ root. query tree.array_size tree.nodes root 0 (tree.array_size - 1) left right)))

abbrev pub version_count : TaglessTree → ℕ
version_count tree = length tree.roots

abbrev pub size : TaglessTree → ℕ
size tree = tree.array_size

abbrev pub node_count : TaglessTree → ℕ
node_count tree = length tree.nodes
