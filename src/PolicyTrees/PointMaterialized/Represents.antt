-- ===== src/PolicyTrees/PointMaterialized/Represents.antt =====
-- When a PointMaterializedPersistentTree stands for a history: the elements of each published version.
use version_aware_lazy_segtr.Prelude.{
  ℕ, ◌-◌, ◌<◌, ◌≡◌, refl, inl, inr, some, List, [], ◌∷◌, ◌++◌, arith, length, length-append,
  get_elem?, get_elem?-append, get_elem?-append_last, get_elem?-append_cases, some_entry,
}
use version_aware_lazy_segtr.Arena.{Extends, back}
use version_aware_lazy_segtr.Policy.Interface.{Policy, Laws}
use version_aware_lazy_segtr.PolicyTrees.PointMaterialized.{Arena, PointMaterializedPersistentTree}
use version_aware_lazy_segtr.PolicyTrees.Fold.{Elements}
use version_aware_lazy_segtr.PolicyTrees.PointMaterialized.Holds.{Holds, Holds-Extends}

module _ {A B : Type 0} {p : Policy A B} (laws : Laws p) where
  -- The root stands for the elements. The empty tree has no root.
  abbrev pub IsVersion : Arena A → ℕ → ℕ → Elements A → Type 0
  IsVersion nodes n root f =
      0 < n → Holds laws nodes root f 0 (n - 1) × ((k : ℕ) → k < n → laws.Sound (f k))

  pub record Represents (tree : PointMaterializedPersistentTree A) (history : List (Elements A))
      : Type 0 where
    pub count : length tree.roots ≡ length history
    pub versions :
        (k root : ℕ)
        → get_elem? tree.roots k ≡ some root
        → (f : Elements A) × (get_elem? history k ≡ some f)
          × IsVersion tree.nodes tree.array_size root f

  -- A version that is appended on both sides.
  pub published :
      {tree : PointMaterializedPersistentTree A} {history : List (Elements A)}
      → Represents tree history
      → (nodes : Arena A) (root : ℕ) (f : Elements A) → Extends tree.nodes nodes
      → IsVersion nodes tree.array_size root f
      → Represents
          (record {
            nodes = nodes;
            roots = tree.roots ++ (root ∷ []);
            array_size = tree.array_size;
          })
          (history ++ (f ∷ []))
  published {tree} {history} rep nodes root f ext version = record {
    count =
        omega
          (arith, length-append tree.roots (root ∷ []), length-append history (f ∷ []), rep.count);
    versions = λ k found h. elim (get_elem?-append_cases tree.roots root found k h) [
      | inl old ↦
          let (g, at, v) = rep.versions k found old in
          (
            g,
            get_elem?-append history (f ∷ []) k g at,
            λ some_element.
                let (shape, sound) = v some_element in (Holds-Extends laws ext shape, sound),
          )
      | inr (e, new) ↦ (f, rw (e, rep.count) (get_elem?-append_last history f), rw (← new) version)
    ];
  }

  -- The newest version: its root, and its elements.
  pub newest :
      {tree : PointMaterializedPersistentTree A} {history : List (Elements A)}
      → Represents tree history
      → 0 < length tree.roots
      → (root : ℕ) × (back tree.roots ≡ some root)
        × (f : Elements A) × (back history ≡ some f)
        × IsVersion tree.nodes tree.array_size root f
  newest {tree} rep h =
      let (root, e) = some_entry tree.roots (length tree.roots - 1) (omega arith) in
      let (f, at, version) = rep.versions (length tree.roots - 1) root e in
      (root, e, f, rw (← rep.count) at, version)

  -- A tree with one version.
  pub first_version :
      (nodes : Arena A) (root n : ℕ) (f : Elements A)
      → IsVersion nodes n root f
      → Represents (record { nodes = nodes; roots = root ∷ []; array_size = n }) (f ∷ [])
  first_version nodes root n f version = record {
    count = refl;
    versions = λ k found h. elim (get_elem?-append_cases [] root found k h) [
      | inl old ↦ cc
      | inr (e, new) ↦ (f, rw e refl, rw (← new) version)
    ];
  }
