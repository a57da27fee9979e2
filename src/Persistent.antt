-- ===== src/Persistent.antt =====
-- PersistentLazySegmentTree of include/valseg/persistent_lazy_segment_tree.hpp and
-- src/persistent_lazy_segment_tree.cpp: path copying on an arena, with lazy tags that stay where
-- they were placed. Each recursion takes fuel for its depth and is given the array size.
mod Write
mod Read
pub use Write.{Node, node, Arena}
unfoldable pub use Write.{build, update}
unfoldable pub use Read.{query, materialize}
pub mod Holds
pub mod Step
pub mod Build
pub mod Update
pub mod Growth
pub mod Query
pub mod Leaves
pub mod Represents
pub mod Publish
pub mod Refine
pub mod History
pub mod Restart
pub mod Preserve
pub mod Session
pub mod Undo
pub mod Quiet
use version_aware_lazy_segtr.Prelude.{
  ℕ, zero, suc, ◌+◌, ◌-◌, ◌==◌, Bool, none, some, List, [], ◌∷◌, ◌++◌, if◌then◌else◌, length,
  get_elem?, take,
}
use version_aware_lazy_segtr.Prelude.Int.{ℤ, pos}
use version_aware_lazy_segtr.Prelude.Result
use version_aware_lazy_segtr.Prelude.Result.{Result, ok, err, fault, or_fault}
use version_aware_lazy_segtr.Prelude.Run.{
  Run, done, thrown, Action, pure, lift, reads, and_then, ◌>>=◌, ◌>>◌,
}
use version_aware_lazy_segtr.Policy.{eq_ℤ}
use version_aware_lazy_segtr.Size.{canonical_node_count}
use version_aware_lazy_segtr.Validation
use version_aware_lazy_segtr.Domain.{max_magnitude, validate_range_add}
use version_aware_lazy_segtr.Arena.{no_node, back}

-- numeric_domain is the bound that the SumAddDomainGuard keeps.
pub record PersistentLazySegmentTree : Type 0 where
  pub nodes : Arena
  pub roots : List ℕ
  pub array_size : ℕ
  pub numeric_domain : ℕ

-- The constructor of a tree with no versions.
abbrev pub empty : PersistentLazySegmentTree
empty = record { nodes = []; roots = []; array_size = 0; numeric_domain = 0 }

-- The replacement nodes and roots of initialize. The size passed to reserve is calculated, and the
-- calculation may throw; the reservation itself does not show.
unfoldable pub build_replacement : List ℤ → Run Arena (List ℕ)
build_replacement values =
    if length values == 0
    then done (no_node ∷ []) []
    else (do
      lift (canonical_node_count (length values))
      root ← build (length values) values 0 (length values - 1)
      pure (root ∷ []))
        []

-- The swap at the end of initialize, which a throw does not reach.
unfoldable pub install :
    List ℤ
    → PersistentLazySegmentTree
    → Run Arena (List ℕ)
    → Run PersistentLazySegmentTree (Unit {0})
unfolding max_magnitude
install values tree (done new_roots new_nodes) = done tt (record {
  nodes = new_nodes;
  roots = new_roots;
  array_size = length values;
  numeric_domain = max_magnitude values;
})
install values tree (thrown e new_nodes) = thrown e tree

unfoldable pub initialize : List ℤ → Action PersistentLazySegmentTree (Unit {0})
initialize values tree = install values tree (build_replacement values)

unfoldable pub validate_initialized : PersistentLazySegmentTree → Result (Unit {0})
unfolding Validation.validate_initialized
validate_initialized tree = Validation.validate_initialized (length tree.roots)

unfoldable pub validate_version : ℕ → PersistentLazySegmentTree → Result (Unit {0})
unfolding Validation.validate_version
validate_version version tree = Validation.validate_version version (length tree.roots)

unfoldable pub validate_range : (left right : ℕ) → PersistentLazySegmentTree → Result (Unit {0})
unfolding Validation.validate_non_empty Validation.validate_range
validate_range left right tree =
    Result.◌>>◌ (Validation.validate_non_empty tree.array_size)
      (Validation.validate_range tree.array_size left right)

-- roots.back()
abbrev pub latest_root : PersistentLazySegmentTree → Result ℕ
latest_root tree = or_fault (back tree.roots)

-- roots.push_back(root)
abbrev pub publish : ℕ → Action PersistentLazySegmentTree (Unit {0})
publish root tree = done tt (record tree { roots = tree.roots ++ (root ∷ []) })

-- return roots.size() - 1
abbrev pub last_version : Action PersistentLazySegmentTree ℕ
last_version tree = done (length tree.roots - 1) tree

-- The traversal that rangeAdd hands to the guard.
unfoldable pub current_leaves : PersistentLazySegmentTree → Result (List ℤ)
current_leaves tree =
    Result.◌>>=◌ (latest_root tree)
      λ root. materialize tree.array_size tree.nodes root 0 (tree.array_size - 1) (pos 0) []

-- The end of the try block of rangeAdd, and its handler, which takes the arena back to the checkpoint.
unfoldable pub finish_update :
    PersistentLazySegmentTree → Run Arena ℕ → Run PersistentLazySegmentTree (Unit {0})
finish_update tree (done new_root nodes) =
    done tt (record tree { nodes = nodes; roots = tree.roots ++ (new_root ∷ []) })
finish_update tree (thrown e nodes) =
    let checkpoint = length tree.nodes in thrown e (record tree { nodes = take checkpoint nodes })

unfoldable pub try_update : (left right : ℕ) → ℤ → Action PersistentLazySegmentTree (Unit {0})
try_update left right value tree = finish_update tree (
    and_then (lift (latest_root tree) tree.nodes)
      λ root. update tree.array_size root 0 (tree.array_size - 1) left right value)

-- numericDomain.commit(bound)
abbrev pub commit : ℕ → Action PersistentLazySegmentTree (Unit {0})
commit bound tree = done tt (record tree { numeric_domain = bound })

unfoldable pub range_add : (left right : ℕ) → ℤ → Action PersistentLazySegmentTree ℕ
range_add left right value = do
  reads validate_initialized
  reads (validate_range left right)
  if eq_ℤ value (pos 0) then (do root ← reads latest_root; publish root; last_version) else (do
    bound ← reads (λ tree.
        validate_range_add tree.numeric_domain tree.array_size left right value
          (current_leaves tree))
    try_update left right value
    commit bound
    last_version)

unfoldable pub range_sum : (version left right : ℕ) → PersistentLazySegmentTree → Result ℤ
range_sum version left right tree = Result.◌>>◌ (validate_initialized tree) (
    Result.◌>>◌ (validate_version version tree) (
      Result.◌>>◌ (validate_range left right tree) (
        Result.◌>>=◌ (or_fault (get_elem? tree.roots version)) λ root.
          query tree.array_size tree.nodes root 0 (tree.array_size - 1) left right (pos 0))))

abbrev pub version_count : PersistentLazySegmentTree → ℕ
version_count tree = length tree.roots

abbrev pub size : PersistentLazySegmentTree → ℕ
size tree = tree.array_size

abbrev pub node_count : PersistentLazySegmentTree → ℕ
node_count tree = length tree.nodes
