-- ===== src/Persistent/Publish.antt =====
-- The parts of rangeAdd behind its checks: the guard, the try block, and the version that they make.
use version_aware_lazy_segtr.Prelude.{
  ℕ, ◌+◌, ◌-◌, ◌≤◌, ◌<◌, ◌≡◌, refl, sym, ◌∙◌, ◌⊎◌, some, List, [], ◌∷◌, ◌++◌, arith, length,
  length-append, get_elem?, take,
}
use version_aware_lazy_segtr.Prelude.Int.{ℤ, pos, ◌+ℤ◌, +ℤ-zero}
use version_aware_lazy_segtr.Prelude.Result
use version_aware_lazy_segtr.Prelude.Result.{
  Result, Error, ok, err, Gives, gives, throws, IsOverflow, Result-cases,
}
use version_aware_lazy_segtr.Prelude.Run.{Run, Ends, returns, raises}
use version_aware_lazy_segtr.Policy.{IsLong}
use version_aware_lazy_segtr.Segment.{Values, of_list, add_range}
use version_aware_lazy_segtr.Segment.Canonical.{Canonical, Canonical-congr}
use version_aware_lazy_segtr.Domain.{validate_range_add}
use version_aware_lazy_segtr.Domain.Loop.{Updated-add_range}
use version_aware_lazy_segtr.Domain.Envelope.{WithinBound}
use version_aware_lazy_segtr.Domain.Guard.{Materialized, validate_range_add-Gives}
use version_aware_lazy_segtr.BruteForce
use version_aware_lazy_segtr.BruteForce.{BruteForceArray}
use version_aware_lazy_segtr.BruteForce.Oracle
use version_aware_lazy_segtr.Arena.{Extends, take-Extends, back}
use version_aware_lazy_segtr.Persistent.{
  Arena, PersistentLazySegmentTree, validate_initialized, validate_range, current_leaves,
  finish_update, try_update,
}
use version_aware_lazy_segtr.Persistent.Holds.{Holds, Holds-congr}
use version_aware_lazy_segtr.Persistent.Step.{Grown, Stopped}
use version_aware_lazy_segtr.Persistent.Update.{update-Ends}
use version_aware_lazy_segtr.Persistent.Leaves.{materialize-Gives}
use version_aware_lazy_segtr.Persistent.Represents.{IsVersion, Represents, published}

-- The checks that rangeAdd makes of its arguments.
abbrev pub checks : PersistentLazySegmentTree → (left right : ℕ) → Result (Unit {0})
checks tree left right = Result.◌>>◌ (validate_initialized tree) (validate_range left right tree)

pub checks_facts :
    (tree : PersistentLazySegmentTree) (left right : ℕ)
    → checks tree left right ≡ ok tt
    → (0 < length tree.roots) × (left ≤ right) × (right < tree.array_size)
unfolding validate_initialized validate_range
checks_facts tree left right h = ground arith

-- What a published update leaves alone: the older nodes, the older roots, and the size.
pub record Grows (tree tree' : PersistentLazySegmentTree) : Type 0 where
  pub nodes_kept : Extends tree.nodes tree'.nodes
  pub new_root : ℕ
  pub roots_kept : tree'.roots ≡ tree.roots ++ (new_root ∷ [])
  pub size_kept : tree'.array_size ≡ tree.array_size

-- The new version is the one that the array adds, under the same number.
abbrev pub Published :
    PersistentLazySegmentTree
    → BruteForceArray
    → (left right : ℕ) → ℤ
    → ℕ
    → PersistentLazySegmentTree
    → Type 0
Published tree array left right v version tree' =
    (array' : BruteForceArray) × (BruteForce.range_add array (length array.versions - 1) left right
        v
      ≡ ok (array', version))
    × Represents tree' array'
    × Grows tree tree'

-- The tree is as it was. The exception is the one of the checks, or an overflow behind them.
abbrev pub Rejected :
    PersistentLazySegmentTree → (left right : ℕ) → Error → PersistentLazySegmentTree → Type 0
Rejected tree left right e tree' =
    (tree' ≡ tree)
    × ((checks tree left right ≡ err e) ⊎ ((checks tree left right ≡ ok tt) × IsOverflow e))

module _ {tree : PersistentLazySegmentTree} {array : BruteForceArray} (rep : Represents tree array)
    (left right : ℕ) (v : ℤ) (hv : IsLong v) (fits : checks tree left right ≡ ok tt) where
  module _ (root : ℕ) (at_root : back tree.roots ≡ some root) (xs : List ℤ)
      (at : get_elem? array.versions (length array.versions - 1) ≡ some xs)
      (version : IsVersion tree.nodes tree.array_size root xs) where
    pub some_element : 0 < tree.array_size
    some_element = omega (arith, checks_facts tree left right fits)

    pub whole : Holds tree.nodes root (of_list xs) 0 (tree.array_size - 1)
    whole = version.shape some_element

    bound : WithinBound (of_list xs) tree.array_size tree.numeric_domain
    bound = rep.bounded xs at

    -- The traversal hands over the newest version.
    leaves-Gives :
        Gives (Materialized (of_list xs) tree.array_size) IsOverflow (current_leaves tree)
    unfolding current_leaves
    leaves-Gives = rw at_root (
        Result.mono
          (materialize-Gives tree.array_size (pos 0) [] whole (omega arith)
            (omega (arith, some_element)) (omega arith))
          (λ ys (zs, e, l). rw e (
            omega (arith, l.size, some_element),
            l.long,
            λ k p q. l.value k (omega (arith, l.size, some_element)) ∙ here (of_list xs) k,
          ))
          (λ e h. h))
      where
        here : (f : Values) (k : ℕ) → f (0 + k) +ℤ pos 0 ≡ f k
        here f k = let e : 0 + k ≡ k = omega arith in rw e (+ℤ-zero (f k))

    pub guard-Gives :
        Gives
          (λ b.
            Canonical (add_range (of_list xs) left right v) 0 (tree.array_size - 1)
            × WithinBound (add_range (of_list xs) left right v) tree.array_size b)
          IsOverflow
          (validate_range_add tree.numeric_domain tree.array_size left right v
            (current_leaves tree))
    guard-Gives =
        let (_, ordered, inside) = checks_facts tree left right fits in
        validate_range_add-Gives left right v hv ordered (of_list xs) tree.array_size
          tree.numeric_domain bound inside leaves-Gives

    -- The version that the array adds, over an arena that holds the updated values.
    pub new_version :
        (nodes : Arena) (j b : ℕ)
        → Extends tree.nodes nodes
        → Holds nodes j (add_range (of_list xs) left right v) 0 (tree.array_size - 1)
        → Canonical (add_range (of_list xs) left right v) 0 (tree.array_size - 1)
        → WithinBound (add_range (of_list xs) left right v) tree.array_size b
        → Published tree array left right v (length (tree.roots ++ (j ∷ [])) - 1) (record {
          nodes = nodes;
          roots = tree.roots ++ (j ∷ []);
          array_size = tree.array_size;
          numeric_domain = b;
        })
    new_version nodes j b ext h c bounded' =
        let (_, ordered, inside) = checks_facts tree left right fits in
        let (ys, e, u) =
          Oracle.range_add-ok array (length array.versions - 1) left right xs at version.long
            ordered (rw version.size inside) v hv (rw version.size c) in
        let same = Updated-add_range xs ys left right v ordered u in
        let number : length (tree.roots ++ (j ∷ [])) - 1 ≡ length array.versions =
          omega (arith, length-append tree.roots (j ∷ []), rep.count) in
        (
          record { versions = array.versions ++ (ys ∷ []) },
          rw number e,
          published rep nodes j ys b ext
              (record {
                size = u.0 ∙ version.size;
                long = u.1;
                shape = λ p. Holds-congr h (λ k a d. sym (same k));
                contract = λ p. Canonical-congr c (λ k a d. sym (same k));
              })
              (λ k p. rw (same k) (bounded' k p)),
          record { nodes_kept = ext; new_root = j; roots_kept = refl; size_kept = refl },
        )

    -- The tree after the try block.
    abbrev pub UpdatedTree : Unit {0} → PersistentLazySegmentTree → Type 0
    UpdatedTree _ tree' =
        (nodes : Arena) × (j : ℕ) × (tree'
          ≡ record tree { nodes = nodes; roots = tree.roots ++ (j ∷ []) })
        × Grown tree.nodes (add_range (of_list xs) left right v) 0 (tree.array_size - 1) j nodes

    finish_update-Ends :
        {run : Run Arena ℕ}
        → Ends
            (Grown tree.nodes (add_range (of_list xs) left right v) 0 (tree.array_size - 1))
            (Stopped tree.nodes)
            run
        → Ends UpdatedTree (λ e tree'. (tree' ≡ tree) × IsOverflow e) (finish_update tree run)
    unfolding finish_update
    finish_update-Ends (returns {a = j} {s = nodes} h) = returns (nodes, j, refl, h)
    finish_update-Ends (raises {s = nodes} (is, ext)) = raises (rolled_back nodes ext, is)
      where
        rolled_back :
            (nodes : Arena)
            → Extends tree.nodes nodes
            → record tree { nodes = take (length tree.nodes) nodes } ≡ tree
        rolled_back nodes ext = rw (take-Extends ext)

    -- The try block publishes the update, or throws and leaves the tree as it was.
    pub try_update-Ends :
        Ends UpdatedTree (λ e tree'. (tree' ≡ tree) × IsOverflow e) (try_update left right v tree)
    unfolding try_update
    try_update-Ends =
        let (_, ordered, inside) = checks_facts tree left right fits in
        rw at_root (
          finish_update-Ends (
            update-Ends v hv left right tree.array_size whole (omega arith)
              (omega (arith, some_element)) (omega arith) (omega arith)))
