-- ===== src/Tagless/Publish.antt =====
-- The parts of rangeAdd of the trees without tags: an update that keeps its promise, the try block
-- around it, and the version that it makes.
use version_aware_lazy_segtr.Prelude.{
  ℕ, ◌-◌, ◌≤◌, ◌<◌, ◌≡◌, refl, sym, ◌∙◌, ◌⊎◌, some, List, [], ◌∷◌, ◌++◌, arith, length,
  length-append, get_elem?, take,
}
use version_aware_lazy_segtr.Prelude.Int.{ℤ}
use version_aware_lazy_segtr.Prelude.Result
use version_aware_lazy_segtr.Prelude.Result.{Result, Error, ok, err, IsOverflow, overflow_error}
use version_aware_lazy_segtr.Prelude.Run.{Run, Ends, returns, raises}
use version_aware_lazy_segtr.Policy.{IsLong}
use version_aware_lazy_segtr.Segment.{Values, of_list, add_range}
use version_aware_lazy_segtr.Segment.Canonical.{Canonical}
use version_aware_lazy_segtr.Domain.Loop.{Updated-add_range}
use version_aware_lazy_segtr.BruteForce
use version_aware_lazy_segtr.BruteForce.{BruteForceArray}
use version_aware_lazy_segtr.BruteForce.Oracle
use version_aware_lazy_segtr.Arena.{Extends, take-Extends, back}
use version_aware_lazy_segtr.Tagless.{
  Arena, TaglessTree, Update, validate_initialized, validate_range, finish_update, try_update,
}
use version_aware_lazy_segtr.Tagless.Holds.{Holds, Holds-congr, Holds-Canonical}
use version_aware_lazy_segtr.Tagless.Step.{Grown, Makes}
use version_aware_lazy_segtr.Tagless.Represents.{IsVersion, Represents, published}

-- What rangeAdd asks of an update of the arena: over a node that stands for f, with a range that
-- meets its segment, it makes a node for the updated values, or overflows because they break the
-- numeric contract.
pub record IsUpdate (update : Update) : Type 0 where
  pub makes :
      (v : ℤ)
      → IsLong v
      → (ql qr fuel : ℕ) {nodes : Arena} {i l r : ℕ} {f : Values} → Holds nodes i f l r
      → r - l < fuel
      → ql ≤ r
      → l ≤ qr
      → Makes nodes (add_range f ql qr v) l r (update fuel i l r ql qr v nodes)

-- The checks that rangeAdd makes of its arguments.
abbrev pub checks : TaglessTree → (left right : ℕ) → Result (Unit {0})
checks tree left right = Result.◌>>◌ (validate_initialized tree) (validate_range left right tree)

pub checks_facts :
    (tree : TaglessTree) (left right : ℕ)
    → checks tree left right ≡ ok tt
    → (0 < length tree.roots) × (left ≤ right) × (right < tree.array_size)
unfolding validate_initialized validate_range
checks_facts tree left right h = ground arith

-- What a published update leaves alone: the older nodes, the older roots, and the size.
pub record Grows (tree tree' : TaglessTree) : Type 0 where
  pub nodes_kept : Extends tree.nodes tree'.nodes
  pub new_root : ℕ
  pub roots_kept : tree'.roots ≡ tree.roots ++ (new_root ∷ [])
  pub size_kept : tree'.array_size ≡ tree.array_size

-- The new version is the one that the array adds, under the same number.
abbrev pub Published :
    TaglessTree → BruteForceArray → (left right : ℕ) → ℤ → ℕ → TaglessTree → Type 0
Published tree array left right v version tree' =
    (array' : BruteForceArray) × (BruteForce.range_add array (length array.versions - 1) left right
        v
      ≡ ok (array', version))
    × Represents tree' array'
    × Grows tree tree'

-- The tree is as it was. The exception is the one of the checks, or the overflow that the array
-- throws behind them.
abbrev pub Rejected :
    TaglessTree → BruteForceArray → (left right : ℕ) → ℤ → Error → TaglessTree → Type 0
Rejected tree array left right v e tree' =
    (tree' ≡ tree)
    × ((checks tree left right ≡ err e)
        ⊎ ((checks tree left right ≡ ok tt)
            × IsOverflow e
            × (BruteForce.range_add array (length array.versions - 1) left right v
                ≡ err overflow_error)))

module _ {tree : TaglessTree} {array : BruteForceArray} (rep : Represents tree array)
    (left right : ℕ) (v : ℤ) (hv : IsLong v) (fits : checks tree left right ≡ ok tt) (root : ℕ)
    (at_root : back tree.roots ≡ some root) (xs : List ℤ)
    (at : get_elem? array.versions (length array.versions - 1) ≡ some xs)
    (version : IsVersion tree.nodes tree.array_size root xs) where
  some_element : 0 < tree.array_size
  some_element = omega (arith, checks_facts tree left right fits)

  pub whole : Holds tree.nodes root (of_list xs) 0 (tree.array_size - 1)
  whole = version.shape some_element

  -- The version that the array adds, over an arena that holds the updated values.
  pub new_version :
      (nodes : Arena) (j : ℕ)
      → Extends tree.nodes nodes
      → Holds nodes j (add_range (of_list xs) left right v) 0 (tree.array_size - 1)
      → Published tree array left right v
          (length (tree.roots ++ (j ∷ [])) - 1)
          (record { nodes = nodes; roots = tree.roots ++ (j ∷ []); array_size = tree.array_size })
  new_version nodes j ext h =
      let (_, ordered, inside) = checks_facts tree left right fits in
      let (ys, e, u) =
        Oracle.range_add-ok array (length array.versions - 1) left right xs at version.long ordered
          (rw version.size inside) v hv (rw version.size (Holds-Canonical h)) in
      let same = Updated-add_range xs ys left right v ordered u in
      let number : length (tree.roots ++ (j ∷ [])) - 1 ≡ length array.versions =
        omega (arith, length-append tree.roots (j ∷ []), rep.count) in
      (
        record { versions = array.versions ++ (ys ∷ []) },
        rw number e,
        published rep nodes j ys ext (record {
          size = u.0 ∙ version.size;
          long = u.1;
          shape = λ p. Holds-congr h (λ k a d. sym (same k));
        }),
        record { nodes_kept = ext; new_root = j; roots_kept = refl; size_kept = refl },
      )

  -- The array refuses an update whose values break the numeric contract.
  pub refused_by_array :
      ¬ Canonical (add_range (of_list xs) left right v) 0 (tree.array_size - 1)
      → BruteForce.range_add array (length array.versions - 1) left right v ≡ err overflow_error
  refused_by_array broken =
      let (_, ordered, inside) = checks_facts tree left right fits in
      Oracle.range_add-err array (length array.versions - 1) left right xs at version.long ordered
        (rw version.size inside) v hv (rw version.size broken)

  -- The tree after the try block.
  abbrev pub UpdatedTree : Unit {0} → TaglessTree → Type 0
  UpdatedTree _ tree' =
      (nodes : Arena) × (j : ℕ) × (tree'
        ≡ record tree { nodes = nodes; roots = tree.roots ++ (j ∷ []) })
      × Grown tree.nodes (add_range (of_list xs) left right v) 0 (tree.array_size - 1) j nodes

  abbrev pub RolledBack : Error → TaglessTree → Type 0
  RolledBack e tree' =
      (tree' ≡ tree)
      × IsOverflow e
      × (¬ Canonical (add_range (of_list xs) left right v) 0 (tree.array_size - 1))

  finish_update-Ends :
      {run : Run Arena ℕ}
      → Makes tree.nodes (add_range (of_list xs) left right v) 0 (tree.array_size - 1) run
      → Ends UpdatedTree RolledBack (finish_update tree run)
  unfolding finish_update
  finish_update-Ends (returns {a = j} {s = nodes} h) = returns (nodes, j, refl, h)
  finish_update-Ends (raises {s = nodes} (is, ext, out)) = raises (rolled_back nodes ext, is, out)
    where
      rolled_back :
          (nodes : Arena)
          → Extends tree.nodes nodes
          → record tree { nodes = take (length tree.nodes) nodes } ≡ tree
      rolled_back nodes ext = rw (take-Extends ext)

  -- The try block publishes the update, or throws and leaves the tree as it was.
  pub try_update-Ends :
      {update : Update}
      → IsUpdate update
      → Ends UpdatedTree RolledBack (try_update update left right v tree)
  unfolding try_update
  try_update-Ends law =
      let (_, ordered, inside) = checks_facts tree left right fits in
      rw at_root (
        finish_update-Ends (
          law.makes v hv left right tree.array_size whole (omega (arith, some_element))
            (omega arith) (omega arith)))
