-- ===== src/Lazy/Represents.antt =====
-- What LazySegmentTree stands for: one vector, the newest version of an array.
use version_aware_lazy_segtr.Prelude.{
  ℕ, ◌+◌, ◌-◌, ◌≤◌, ◌<◌, ◌≡◌, refl, sym, ◌∙◌, List, [], ◌∷◌, arith, length,
}
use version_aware_lazy_segtr.Prelude.Int.{ℤ, pos, ◌+ℤ◌, +ℤ-zero}
use version_aware_lazy_segtr.Prelude.Result
use version_aware_lazy_segtr.Prelude.Result.{ok, Gives, IsOverflow}
use version_aware_lazy_segtr.Policy.{IsLong}
use version_aware_lazy_segtr.Segment.{Values, of_list, AllLong, add_range}
use version_aware_lazy_segtr.Segment.Canonical.{Canonical, Canonical-congr}
use version_aware_lazy_segtr.Domain.{validate_range_add}
use version_aware_lazy_segtr.Domain.Loop.{Updated-add_range}
use version_aware_lazy_segtr.Domain.Envelope.{WithinBound}
use version_aware_lazy_segtr.Domain.Guard.{Materialized, validate_range_add-Gives}
use version_aware_lazy_segtr.BruteForce
use version_aware_lazy_segtr.BruteForce.{BruteForceArray}
use version_aware_lazy_segtr.BruteForce.Oracle
use version_aware_lazy_segtr.Lazy.{LazySegmentTree, validate_range, current_leaves}
use version_aware_lazy_segtr.Lazy.Holds.{Holds, Holds-congr, Holds-kept}
use version_aware_lazy_segtr.Lazy.Leaves.{materialize-Gives}

pub record Represents (tree : LazySegmentTree) (xs : List ℤ) : Type 0 where
  pub size : length xs ≡ tree.array_size
  pub long : AllLong xs
  pub shape : 0 < tree.array_size → Holds tree 0 (of_list xs) 0 (tree.array_size - 1)
  pub contract : 0 < tree.array_size → Canonical (of_list xs) 0 (tree.array_size - 1)
  pub bounded : WithinBound (of_list xs) tree.array_size tree.numeric_domain

-- The array whose one version is the vector.
abbrev pub snapshot : List ℤ → BruteForceArray
snapshot xs = record { versions = xs ∷ [] }

-- The tree stands for the vector that the array makes of the old one.
abbrev pub Changed : List ℤ → (left right : ℕ) → ℤ → LazySegmentTree → Type 0
Changed xs left right v tree' =
    (ys : List ℤ) × (BruteForce.range_add (snapshot xs) 0 left right v
      ≡ ok (record { versions = xs ∷ ys ∷ [] }, 1))
    × Represents tree' ys

pub range_facts :
    (tree : LazySegmentTree) (left right : ℕ)
    → validate_range left right tree ≡ ok tt
    → (left ≤ right) × (right < tree.array_size)
unfolding validate_range
range_facts tree left right h = ground arith

module _ {tree : LazySegmentTree} {xs : List ℤ} (rep : Represents tree xs) (left right : ℕ) (v : ℤ)
    (hv : IsLong v) (fits : validate_range left right tree ≡ ok tt) where
  some_element : 0 < tree.array_size
  some_element = omega (arith, range_facts tree left right fits)

  pub whole : Holds tree 0 (of_list xs) 0 (tree.array_size - 1)
  whole = rep.shape some_element

  pub whole_contract : Canonical (of_list xs) 0 (tree.array_size - 1)
  whole_contract = rep.contract some_element

  leaves-Gives : Gives (Materialized (of_list xs) tree.array_size) IsOverflow (current_leaves tree)
  unfolding current_leaves
  leaves-Gives =
      Result.mono
        (materialize-Gives tree.array_size (pos 0) [] whole (omega arith)
          (omega (arith, some_element)) (omega arith))
        (λ ys (zs, e, l). rw e (
          omega (arith, l.size, some_element),
          l.long,
          λ k p q. l.value k (omega (arith, l.size, some_element)) ∙ here (of_list xs) k,
        ))
        (λ e h. h)
    where
      here : (f : Values) (k : ℕ) → f (0 + k) +ℤ pos 0 ≡ f k
      here f k = let e : 0 + k ≡ k = omega arith in rw e (+ℤ-zero (f k))

  pub guard-Gives :
      Gives
        (λ b.
          Canonical (add_range (of_list xs) left right v) 0 (tree.array_size - 1)
          × WithinBound (add_range (of_list xs) left right v) tree.array_size b)
        IsOverflow
        (validate_range_add tree.numeric_domain tree.array_size left right v (current_leaves tree))
  guard-Gives =
      let (ordered, inside) = range_facts tree left right fits in
      validate_range_add-Gives left right v hv ordered (of_list xs) tree.array_size
        tree.numeric_domain rep.bounded inside leaves-Gives

  -- A state in which the updated values stand at the root, and the new bound is committed.
  pub changed :
      (tree' : LazySegmentTree) (b : ℕ)
      → tree'.array_size ≡ tree.array_size
      → Holds tree' 0 (add_range (of_list xs) left right v) 0 (tree.array_size - 1)
      → Canonical (add_range (of_list xs) left right v) 0 (tree.array_size - 1)
      → WithinBound (add_range (of_list xs) left right v) tree.array_size b
      → Changed xs left right v (record tree' { numeric_domain = b })
  changed tree' b size h c bound =
      let (ordered, inside) = range_facts tree left right fits in
      let (ys, e, u) =
        Oracle.range_add-ok (snapshot xs) 0 left right xs refl rep.long ordered (rw rep.size inside)
          v hv (rw rep.size c) in
      let same = Updated-add_range xs ys left right v ordered u in
      let standing = rw (← size) at h in
      let lawful = rw (← size) at c in
      let bound' = rw (← size) at bound in
      let committed = record tree' { numeric_domain = b } in
      (
        ys,
        e,
        record {
          size = u.0 ∙ rep.size ∙ sym size;
          long = u.1;
          shape = λ p.
              Holds-congr (Holds-kept tree' committed (λ k below. (refl, refl)) standing)
                (λ k a d. sym (same k));
          contract = λ p. Canonical-congr lawful (λ k a d. sym (same k));
          bounded = λ k p. rw (same k) (bound' k p);
        },
      )
