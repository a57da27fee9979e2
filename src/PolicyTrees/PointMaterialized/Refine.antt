-- ===== src/PolicyTrees/PointMaterialized/Refine.antt =====
-- rangeApply of PointMaterializedPersistentTree against a history of elements.
use version_aware_lazy_segtr.Prelude.{
  ℕ, ◌-◌, ◌≤◌, ◌<◌, ◌≡◌, refl, sym, ◌⊎◌, inl, inr, some, true, List, [], ◌∷◌, ◌++◌, arith, length,
  length-append, take, Bool-cases, covers,
}
use version_aware_lazy_segtr.Prelude.Result.{Error, ok, err, Result-cases}
use version_aware_lazy_segtr.Prelude.Run
use version_aware_lazy_segtr.Prelude.Run.{and_then, pure, Run, Ends, returns, raises}
use version_aware_lazy_segtr.Arena.{Extends, Extends-refl, take-Extends, back}
use version_aware_lazy_segtr.Policy.Interface.{Policy, Laws}
use version_aware_lazy_segtr.PolicyTrees.PointMaterialized.{
  Arena, PointMaterializedPersistentTree, check_update, finish_update, range_apply,
}
use version_aware_lazy_segtr.PolicyTrees.Fold.{Elements, applied}
use version_aware_lazy_segtr.PolicyTrees.PointMaterialized.Holds.{Agree, Holds-congr, Grown, Makes}
use version_aware_lazy_segtr.PolicyTrees.PointMaterialized.Update.{update-Makes}
use version_aware_lazy_segtr.PolicyTrees.PointMaterialized.Represents.{
  Represents, published, newest,
}

module _ {A B : Type 0} (p : Policy A B) where
  check_update_facts :
      (tree : PointMaterializedPersistentTree A) (left right : ℕ)
      → check_update p left right tree ≡ ok tt
      → (0 < length tree.roots) × (left ≤ right) × (right < tree.array_size)
  unfolding check_update
  check_update_facts tree left right h = ground arith

module _ {A B : Type 0} {p : Policy A B} (laws : Laws p) where
  -- The new version is the newest one with the action applied to the range. It has the next number,
  -- and the size, the older nodes and the older roots are as they were.
  pub record Published (tree : PointMaterializedPersistentTree A) (history : List (Elements A))
      (left right : ℕ) (action : B) (version : ℕ) (tree' : PointMaterializedPersistentTree A)
      : Type 0 where
    pub elements : Elements A
    pub newest_elements : back history ≡ some elements
    pub in_step : Represents laws tree' (history ++ (applied laws left right action elements ∷ []))
    pub number : version ≡ length history
    pub nodes_kept : Extends tree.nodes tree'.nodes
    pub new_root : ℕ
    pub roots_kept : tree'.roots ≡ tree.roots ++ (new_root ∷ [])
    pub size_kept : tree'.array_size ≡ tree.array_size

  -- The tree is as it was. The exception is the one of the checks, or the policy's behind them.
  abbrev pub Rejected :
      PointMaterializedPersistentTree A
      → (left right : ℕ) → Error
      → PointMaterializedPersistentTree A
      → Type 0
  Rejected tree left right e tree' =
      (tree' ≡ tree)
      × ((check_update p left right tree ≡ err e)
          ⊎ ((check_update p left right tree ≡ ok tt) × laws.Throws e))

  module _ {tree : PointMaterializedPersistentTree A} {history : List (Elements A)}
      (rep : Represents laws tree history) (left right : ℕ) (action : B)
      (good : laws.Good action) where
    abbrev SoundBelow : Elements A → Type 0
    SoundBelow f = (k : ℕ) → k < tree.array_size → laws.Sound (f k)

    applied_sound : (f : Elements A) → SoundBelow f → SoundBelow (applied laws left right action f)
    applied_sound f sound k below = elim (Bool-cases (covers left right k k)) [
      | inl on ↦ rw on (laws.act_sound 1 good (sound k below))
      | inr off ↦ rw off (sound k below)
    ]

    new_version :
        (nodes : Arena A) (j : ℕ) (f : Elements A)
        → back history ≡ some f
        → SoundBelow f
        → Grown laws tree.nodes (applied laws left right action f) 0 (tree.array_size - 1) j nodes
        → Published tree history left right action
            (length (tree.roots ++ (j ∷ [])) - 1)
            (record { nodes = nodes; roots = tree.roots ++ (j ∷ []); array_size = tree.array_size })
    new_version nodes j f at sound (ext, h) = record {
      elements = f;
      newest_elements = at;
      in_step =
          published laws rep nodes j (applied laws left right action f) ext
            (λ some_element. (h, applied_sound f sound));
      number = omega (arith, length-append tree.roots (j ∷ []), rep.count);
      nodes_kept = ext;
      new_root = j;
      roots_kept = refl;
      size_kept = refl;
    }

    -- The tree after the try block.
    abbrev Updated : Elements A → Unit {0} → PointMaterializedPersistentTree A → Type 0
    Updated f _ tree' =
        (nodes : Arena A) × (j : ℕ) × (tree'
          ≡ record tree { nodes = nodes; roots = tree.roots ++ (j ∷ []) })
        × Grown laws tree.nodes (applied laws left right action f) 0 (tree.array_size - 1) j nodes

    finish_update-Ends :
        (f : Elements A) {run : Run (Arena A) ℕ}
        → Makes laws tree.nodes (applied laws left right action f) 0 (tree.array_size - 1) run
        → Ends (Updated f) (λ e tree'. (tree' ≡ tree) × laws.Throws e) (finish_update p tree run)
    unfolding finish_update
    finish_update-Ends f (returns {a = j} {s = nodes} h) = returns (nodes, j, refl, h)
    finish_update-Ends f (raises {s = nodes} (bad, ext)) = raises (rolled_back nodes ext, bad)
      where
        rolled_back :
            (nodes : Arena A)
            → Extends tree.nodes nodes
            → record tree { nodes = take (length tree.nodes) nodes } ≡ tree
        rolled_back nodes ext = rw (take-Extends ext)

    -- An identity action changes no element.
    unchanged :
        (f : Elements A) (n : ℕ)
        → p.is_identity action ≡ true
        → ((k : ℕ) → k ≤ n → laws.Sound (f k))
        → Agree laws f (applied laws left right action f) 0 n
    unchanged f n idle sound k u v = elim (Bool-cases (covers left right k k)) [
      | inl on ↦ rw on (sym (laws.act_identity 1 idle (sound k v)))
      | inr off ↦ rw off refl
    ]

    -- For a policy with the laws, on a tree without tags that stands for a history, and an action
    -- that the laws admit, rangeApply ends; it publishes a version in which the action is applied
    -- to each element of the range in the newest version, and keeps the size and the older nodes
    -- and roots, or it throws the exception of its argument checks, or one of the policy behind
    -- them, and the tree is as it was.
    pub range_apply-materializes :
        Ends
          (Published tree history left right action)
          (Rejected tree left right)
          (range_apply p left right action tree)
    unfolding range_apply
    range_apply-materializes = elim (Result-cases (check_update p left right tree)) [
      | inr (e, bad) ↦ rw bad (raises (refl, inl (rw bad)))
      | inl (u, fits) ↦
          let (some_version, ordered, inside) = check_update_facts p tree left right fits in
          let (root, at_root, f, at, version) = newest laws rep some_version in
          let (whole, sound) = version (omega arith) in
          elim (Bool-cases (p.is_identity action)) [
            | inl idle ↦
                let same = unchanged f (tree.array_size - 1) idle (λ k v. sound k (omega arith)) in
                rw (fits, at_root, idle)
                  (returns (
                    new_version tree.nodes root f at sound
                      (Extends-refl tree.nodes, Holds-congr laws whole same)))
            | inr acts ↦
                rw (fits, at_root, acts)
                  (Run.bind _
                    (Run.mono
                      (finish_update-Ends f (
                        update-Makes laws action good left right tree.array_size whole (omega arith)
                          (omega arith) (omega arith)))
                      (λ u s h. h) (λ e s (same, bad). (same, inr (fits, bad))))
                    (λ u tree' (nodes, j, e, h). rw e (returns (new_version nodes j f at sound h))))
          ]
    ]
