-- ===== src/Persistent/Represents.antt =====
-- When a PersistentLazySegmentTree is in step with a brute-force array.
use version_aware_lazy_segtr.Prelude.{
  ℕ, ◌-◌, ◌<◌, ◌≡◌, sym, ◌∙◌, inl, inr, some, List, [], ◌∷◌, ◌++◌, arith, length, length-append,
  get_elem?, get_elem?-append, get_elem?-append_last, get_elem?-append_cases, some_entry,
}
use version_aware_lazy_segtr.Prelude.Int.{ℤ}
use version_aware_lazy_segtr.Segment.{of_list, AllLong}
use version_aware_lazy_segtr.Segment.Canonical.{Canonical}
use version_aware_lazy_segtr.Domain.Envelope.{WithinBound}
use version_aware_lazy_segtr.BruteForce.{BruteForceArray}
use version_aware_lazy_segtr.Arena.{Extends, back, back-append}
use version_aware_lazy_segtr.Persistent.{Arena, PersistentLazySegmentTree}
use version_aware_lazy_segtr.Persistent.Holds.{Holds, Holds-Extends}

-- The root stands for the vector xs, which meets the numeric contract. The empty tree has no root.
pub record IsVersion (nodes : Arena) (n : ℕ) (root : ℕ) (xs : List ℤ) : Type 0 where
  pub size : length xs ≡ n
  pub long : AllLong xs
  pub shape : 0 < n → Holds nodes root (of_list xs) 0 (n - 1)
  pub contract : 0 < n → Canonical (of_list xs) 0 (n - 1)

abbrev pub VersionAt : PersistentLazySegmentTree → BruteForceArray → ℕ → ℕ → Type 0
VersionAt tree array k root =
    (xs : List ℤ) × (get_elem? array.versions k ≡ some xs)
    × IsVersion tree.nodes tree.array_size root xs

-- Version by version, and with a guard whose bound covers the newest one.
pub record Represents (tree : PersistentLazySegmentTree) (array : BruteForceArray) : Type 0 where
  pub count : length tree.roots ≡ length array.versions
  pub versions : (k root : ℕ) → get_elem? tree.roots k ≡ some root → VersionAt tree array k root
  pub bounded :
      (xs : List ℤ)
      → back array.versions ≡ some xs
      → WithinBound (of_list xs) tree.array_size tree.numeric_domain

pub IsVersion-Extends :
    {nodes nodes' : Arena} {n root : ℕ} {xs : List ℤ}
    → Extends nodes nodes'
    → IsVersion nodes n root xs
    → IsVersion nodes' n root xs
IsVersion-Extends x h = record {
  size = h.size;
  long = h.long;
  shape = λ p. Holds-Extends x (h.shape p);
  contract = h.contract;
}

module _ {tree : PersistentLazySegmentTree} {array : BruteForceArray}
    (rep : Represents tree array) where
  -- A version that is appended on both sides keeps the two in step.
  pub published :
      (nodes : Arena) (root : ℕ) (ys : List ℤ) (b : ℕ)
      → Extends tree.nodes nodes
      → IsVersion nodes tree.array_size root ys
      → WithinBound (of_list ys) tree.array_size b
      → Represents
          (record {
            nodes = nodes;
            roots = tree.roots ++ (root ∷ []);
            array_size = tree.array_size;
            numeric_domain = b;
          })
          (record { versions = array.versions ++ (ys ∷ []) })
  published nodes root ys b ext version bound = record {
    count = omega (
      arith,
      length-append tree.roots (root ∷ []),
      length-append array.versions (ys ∷ []),
      rep.count,
    );
    versions = λ k found h. elim (get_elem?-append_cases tree.roots root found k h) [
      | inl old ↦
          let (xs, at, v) = rep.versions k found old in
          (xs, get_elem?-append array.versions (ys ∷ []) k xs at, IsVersion-Extends ext v)
      | inr (e, new) ↦
          (ys, rw (e, rep.count) (get_elem?-append_last array.versions ys), rw (← new) version)
    ];
    bounded = λ xs h. new_bound xs (sym (back-append array.versions ys) ∙ h);
  }
    where
      new_bound : (xs : List ℤ) → some ys ≡ some xs → WithinBound (of_list xs) tree.array_size b
      new_bound xs h = let e : ys ≡ xs = cc in rw (← e) bound

  -- The newest version: its root, and its vector.
  pub newest :
      0 < length tree.roots
      → (root : ℕ) × (back tree.roots ≡ some root)
        × VersionAt tree array (length array.versions - 1) root
  newest h =
      let (root, e) = some_entry tree.roots (length tree.roots - 1) (omega arith) in
      (root, e, rw (← rep.count) (rep.versions (length tree.roots - 1) root e))
