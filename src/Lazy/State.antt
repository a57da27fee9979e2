-- ===== src/Lazy/State.antt =====
-- The state of LazySegmentTree, and the reads and writes of its vectors. An access outside a vector,
-- which C++ leaves undefined, is a fault.
use version_aware_lazy_segtr.Prelude.{
  ℕ, zero, suc, List, [], ◌∷◌, ltb, if◌then◌else◌, length, get_elem?, set,
}
use version_aware_lazy_segtr.Prelude.Int.{ℤ, pos}
use version_aware_lazy_segtr.Prelude.Result.{Result, ok, err, fault, or_fault}
use version_aware_lazy_segtr.Prelude.Run.{done, Action, reads, ◌>>=◌}

-- numeric_domain is the bound that the SumAddDomainGuard keeps.
pub record LazySegmentTree : Type 0 where
  pub tree : List ℤ
  pub lazy : List ℤ
  pub array_size : ℕ
  pub numeric_domain : ℕ

-- The constructor of a tree over nothing.
abbrev pub empty : LazySegmentTree
empty = record { tree = []; lazy = []; array_size = 0; numeric_domain = 0 }

-- std::vector<ValueType>(count, 0)
abbrev pub zeros : ℕ → List ℤ
zeros zero = []
zeros (suc n) = pos 0 ∷ zeros n

-- v[i]
abbrev pub element : List ℤ → ℕ → Result ℤ
element v i = or_fault (get_elem? v i)

-- v[i] = x
abbrev pub assigned : List ℤ → ℕ → ℤ → Result (List ℤ)
assigned v i x = if ltb i (length v) then ok (set v i x) else err fault

-- sums[node] = value
abbrev pub store : ℕ → ℤ → Action (List ℤ) (Unit {0})
store node value = do sums ← reads (λ sums. assigned sums node value); λ old. done tt sums

-- tree[node] = value
abbrev pub store_sum : ℕ → ℤ → Action LazySegmentTree (Unit {0})
store_sum node value = do
  sums ← reads (λ tree. assigned tree.tree node value)
  λ tree. done tt (record tree { tree = sums })

-- lazy[node] = value
abbrev pub store_tag : ℕ → ℤ → Action LazySegmentTree (Unit {0})
store_tag node value = do
  tags ← reads (λ tree. assigned tree.lazy node value)
  λ tree. done tt (record tree { lazy = tags })

abbrev pub sum_at : ℕ → Action LazySegmentTree ℤ
sum_at node = reads λ tree. element tree.tree node

abbrev pub tag_at : ℕ → Action LazySegmentTree ℤ
tag_at node = reads λ tree. element tree.lazy node
