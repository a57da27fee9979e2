-- ===== src/Lazy/Frame.antt =====
-- The entries, the size and the bound that an update of a subtree of LazySegmentTree is not about.
use version_aware_lazy_segtr.Prelude.{
  ℕ, ◌+◌, ◌*◌, ◌≡◌, refl, ◌∙◌, true, some, List, arith, ltb, length, get_elem?, set,
  get_elem?-set_ne, lt_length_of_get_elem?,
}
use version_aware_lazy_segtr.Prelude.Int.{ℤ}
use version_aware_lazy_segtr.Prelude.Result.{ok}
use version_aware_lazy_segtr.Lazy.{LazySegmentTree, assigned}
use version_aware_lazy_segtr.Lazy.Below.{
  ChildOf, Below, here, Below-child, siblings_apart, parent_apart,
}
use version_aware_lazy_segtr.Lazy.Holds.{KeptAt, KeptBelow}

pub record Frame (node : ℕ) (tree tree' : LazySegmentTree) : Type 0 where
  pub outside : (k : ℕ) → (Below node k → ⊥) → KeptAt tree tree' k
  pub size_kept : tree'.array_size ≡ tree.array_size
  pub bound_kept : tree'.numeric_domain ≡ tree.numeric_domain

pub Frame-refl : (node : ℕ) (tree : LazySegmentTree) → Frame node tree tree
Frame-refl node tree = record {
  outside = λ k off. (refl, refl);
  size_kept = refl;
  bound_kept = refl;
}

pub Frame-trans :
    {node : ℕ} {a b c : LazySegmentTree} → Frame node a b → Frame node b c → Frame node a c
Frame-trans x y = record {
  outside =
      λ k off. let (p, q) = x.outside k off in let (p', q') = y.outside k off in (p' ∙ p, q' ∙ q);
  size_kept = y.size_kept ∙ x.size_kept;
  bound_kept = y.bound_kept ∙ x.bound_kept;
}

-- What a child's update leaves alone, its parent's leaves alone too.
pub Frame-child :
    {node c : ℕ} {a b : LazySegmentTree} → ChildOf node c → Frame c a b → Frame node a b
Frame-child child x = record {
  outside = λ k off. x.outside k (λ b. off (Below-child child b));
  size_kept = x.size_kept;
  bound_kept = x.bound_kept;
}

-- An update of the left child leaves the right child alone, and the other way round; the parent's
-- entries are left alone by both.
pub right_apart :
    (node : ℕ) {a b : LazySegmentTree} → Frame (2 * node + 1) a b → KeptBelow a b (2 * node + 2)
right_apart node x k b = x.outside k (λ a. siblings_apart node a b)

pub left_apart :
    (node : ℕ) {a b : LazySegmentTree} → Frame (2 * node + 2) a b → KeptBelow a b (2 * node + 1)
left_apart node x k a = x.outside k (λ b. siblings_apart node a b)

pub parent_kept :
    (node c : ℕ) {a b : LazySegmentTree} → ChildOf node c → Frame c a b → KeptAt a b node
parent_kept node c child x = x.outside node (parent_apart node c child)

-- A write of an entry that is there.
pub assigned-ok :
    (xs : List ℤ) (i : ℕ) (x y : ℤ) → get_elem? xs i ≡ some y → assigned xs i x ≡ ok (set xs i x)
assigned-ok xs i x y h =
    let inside : ltb i (length xs) ≡ true = ground (arith, lt_length_of_get_elem? xs i y h) in
    rw inside

not_here : {node k : ℕ} → (Below node k → ⊥) → k ≡ node → ⊥
not_here off e = off (here e)

-- Writes of a node's own entries.
pub Frame-sum :
    (node : ℕ) (x : ℤ) (tree : LazySegmentTree)
    → Frame node tree (record tree { tree = set tree.tree node x })
Frame-sum node x tree = record {
  outside = λ k off. (get_elem?-set_ne tree.tree node k x (not_here off), refl);
  size_kept = refl;
  bound_kept = refl;
}

pub Frame-tag :
    (node : ℕ) (x : ℤ) (tree : LazySegmentTree)
    → Frame node tree (record tree { lazy = set tree.lazy node x })
Frame-tag node x tree = record {
  outside = λ k off. (refl, get_elem?-set_ne tree.lazy node k x (not_here off));
  size_kept = refl;
  bound_kept = refl;
}

-- A write of a node's entries leaves the subtrees of its children alone.
pub child_untouched :
    (node c : ℕ) (a b : LazySegmentTree)
    → ChildOf node c
    → ((k : ℕ) → (k ≡ node → ⊥) → KeptAt a b k)
    → KeptBelow a b c
child_untouched node c a b child kept k below =
    kept k (λ e. parent_apart node c child (rw (← e) below))
