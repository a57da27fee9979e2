-- ===== src/Persistent/Undo.antt =====
-- An update of PersistentLazySegmentTree, and the one that takes it back.
use version_aware_lazy_segtr.Prelude.{
  ℕ, ◌-◌, ◌≤◌, ◌<◌, ◌≡◌, refl, sym, ◌∙◌, inl, inr, ◌⊎◌, some, List, [], ◌∷◌, ◌++◌, arith, covers,
  Bool-cases, length, length-append,
}
use version_aware_lazy_segtr.Prelude.Int.{ℤ, pos, ◌-ℤ◌, int_laws}
use version_aware_lazy_segtr.Prelude.Result
use version_aware_lazy_segtr.Prelude.Result.{Error, ok, err, overflow_error, Result-cases}
use version_aware_lazy_segtr.Prelude.Run
use version_aware_lazy_segtr.Prelude.Run.{Run, done, thrown}
use version_aware_lazy_segtr.Policy.{IsLong}
use version_aware_lazy_segtr.Segment.{Values, of_list, seg_sum, add_range}
use version_aware_lazy_segtr.Segment.Sum.{seg_sum-congr}
use version_aware_lazy_segtr.Domain.Loop.{Updated-add_range}
use version_aware_lazy_segtr.BruteForce.{BruteForceArray}
use version_aware_lazy_segtr.BruteForce.Oracle
use version_aware_lazy_segtr.Arena.{back, back-append}
use version_aware_lazy_segtr.Persistent.{
  PersistentLazySegmentTree, validate_initialized, validate_version, validate_range, range_add,
  range_sum, version_count,
}
use version_aware_lazy_segtr.Persistent.Represents.{Represents, newest}
use version_aware_lazy_segtr.Persistent.Publish.{checks, checks_facts}
use version_aware_lazy_segtr.Persistent.Refine.{range_add-refines}
use version_aware_lazy_segtr.Persistent.History.{
  Answered, query_checks, query_checks_facts, range_sum-checks, range_sum_answers,
}
use version_aware_lazy_segtr.Persistent.Session.{Reached, Reached-IsInStep}

some_injective : {A : Type 0} {a b : A} → some a ≡ some b → a ≡ b
some_injective h = cc

-- Only behind its checks does rangeAdd return.
checks_passed :
    (tree : PersistentLazySegmentTree) {tree' : PersistentLazySegmentTree} (left right : ℕ) (v : ℤ)
    {version : ℕ}
    → range_add left right v tree ≡ done version tree'
    → checks tree left right ≡ ok tt
unfolding range_add
checks_passed tree left right v run = elim (Result-cases (validate_initialized tree)) [
  | inr (e, bad) ↦ absurd_run (rw bad at run)
  | inl (u, started) ↦ elim (Result-cases (validate_range left right tree)) [
    | inr (e, bad) ↦ absurd_run (rw (started, bad) at run)
    | inl (u, ranged) ↦ rw (started, ranged)
  ]
]
  where
    absurd_run :
        {S A B : Type 0} {e : Error} {a : A} {s t : S}
        → ◌≡◌ {A = Run S A} (thrown e s) (done a t)
        → B
    absurd_run h = cc

query_checks_hold :
    (tree : PersistentLazySegmentTree) (version left right : ℕ)
    → version < version_count tree
    → left ≤ right
    → right < tree.array_size
    → query_checks tree version left right ≡ ok tt
unfolding validate_initialized validate_version validate_range
query_checks_hold tree version left right stored ordered inside = ground arith

-- Only behind its checks does rangeSum return.
query_checks_passed :
    (tree : PersistentLazySegmentTree) (version left right : ℕ) {s : ℤ}
    → range_sum version left right tree ≡ ok s
    → query_checks tree version left right ≡ ok tt
query_checks_passed tree version left right run =
    elim (Result-cases (query_checks tree version left right)) [
      | inl (u, fits) ↦ fits
      | inr (e, bad) ↦ absurd_run (rw bad at (sym (range_sum-checks tree version left right) ∙ run))
    ]
  where
    absurd_run : {A B : Type 0} {e : Error} {a : A} → err e ≡ ok a → B
    absurd_run h = cc

-- The array's newest vector has the values f.
abbrev Newest : BruteForceArray → Values → Type 0
Newest array f = (xs : List ℤ) × (back array.versions ≡ some xs) × ((k : ℕ) → of_list xs k ≡ f k)

-- An update that returned: the array has a new newest vector, under the number of the version.
returned_values :
    {tree tree' : PersistentLazySegmentTree} {array : BruteForceArray} {f : Values}
    → Represents tree array
    → Newest array f
    → (left right : ℕ) (v : ℤ) → IsLong v
    → {version : ℕ} → range_add left right v tree ≡ done version tree'
    → (array' : BruteForceArray) × Represents tree' array'
      × (version ≡ length array'.versions - 1)
      × (version < version_count tree')
      × (tree'.array_size ≡ tree.array_size)
      × Newest array' (add_range f left right v)
returned_values {tree} {array} {f} rep (xs, at, same) left right v hv run =
    let (stored, ordered, inside) =
      checks_facts tree left right (checks_passed tree left right v run) in
    let (root, at_root, (ws, at', x)) = newest rep stored in
    let (array', added, rep', grown) = Run.value (range_add-refines rep left right v hv) run in
    let (ys, e, number, u) =
      Oracle.range_add_appended array (length array.versions - 1) left right ws at' x.long ordered
        (rw x.size inside) v hv added in
    let known : ws ≡ xs = some_injective (sym at' ∙ at) in
    let more = length-append array.versions (ys ∷ []) in
    (
      record { versions = array.versions ++ (ys ∷ []) },
      rw e at rep',
      omega (arith, number, more),
      omega (arith, number, more, (rw e at rep').count),
      grown.size_kept,
      (
        ys,
        back-append array.versions ys,
        λ k. Updated-add_range ws ys left right v ordered u k ∙ rw known (at_index k (same k)),
      ),
    )
  where
    at_index :
        (k : ℕ)
        → of_list xs k ≡ f k
        → add_range (of_list xs) left right v k ≡ add_range f left right v k
    at_index k e = rw e

module _ {tree : PersistentLazySegmentTree} {array : BruteForceArray} {f : Values}
    (rep : Represents tree array) (newest_values : Newest array f) (version left right : ℕ)
    (last : version ≡ length array.versions - 1) where
  -- A query of the newest version answers with the sum of the newest values.
  newest_answer : (s : ℤ) → Answered array version left right s → s ≡ seg_sum f left right
  newest_answer s (ys, stored, (exact, long)) =
      let (xs, at, same) = newest_values in
      let newest_stored : back array.versions ≡ some ys = rw (← last) stored in
      let known : ys ≡ xs = some_injective (sym newest_stored ∙ at) in
      exact ∙ rw known (seg_sum-congr (of_list xs) f left right (λ k p q. same k))

  -- With valid arguments, it answers so or throws an overflow.
  newest_outcome :
      version < version_count tree
      → left ≤ right
      → right < tree.array_size
      → (range_sum version left right tree ≡ ok (seg_sum f left right))
        ⊎ (range_sum version left right tree ≡ err overflow_error)
  newest_outcome stored ordered inside =
      elim (Result.Gives-cases (range_sum_answers rep version left right)) [
        | inl (s, run, answered) ↦ inl (rw (← newest_answer s answered) run)
        | inr (e, run, inl bad) ↦
            absurd_checks
              (sym bad ∙ query_checks_hold tree version left right stored ordered inside)
        | inr (e, run, inr (fits, is)) ↦ inr (rw (← is) run)
      ]
    where
      absurd_checks : {A B : Type 0} {e : Error} {a : A} → err e ≡ ok a → B
      absurd_checks h = cc

taken_back :
    (f : Values) (left right : ℕ) (v : ℤ) (k : ℕ)
    → add_range (add_range f left right v) left right (pos 0 -ℤ v) k ≡ f k
taken_back f left right v k = elim (Bool-cases (covers left right k k)) [
  | inl on ↦ rw on (omega int_laws)
  | inr off ↦ rw off
]

-- In a state that a client can reach, if a rangeAdd of a long long whose negation is one too
-- returns, and a rangeAdd of the negation on the same range returns behind it, every query that
-- the newest version answered before both has the same answer in the version that the second one
-- publishes, or throws an overflow there.
pub range_add_undone :
    {tree tree' tree'' : PersistentLazySegmentTree} {version undone : ℕ}
    → Reached tree
    → (left right : ℕ) (v : ℤ) → IsLong v
    → IsLong (pos 0 -ℤ v)
    → range_add left right v tree ≡ done version tree'
    → range_add left right (pos 0 -ℤ v) tree' ≡ done undone tree''
    → (ql qr : ℕ) (s : ℤ) → range_sum (version_count tree - 1) ql qr tree ≡ ok s
    → (range_sum undone ql qr tree'' ≡ ok s) ⊎ (range_sum undone ql qr tree'' ≡ err overflow_error)
range_add_undone {tree} {undone} r left right v hv hv' run run' ql qr s before =
    let (array, rep) = Reached-IsInStep r in
    let stored = (checks_facts tree left right (checks_passed tree left right v run)).0 in
    let (root, at_root, (xs, at, x)) = newest rep stored in
    let (array1, rep1, n1, there1, size1, newest1) =
      returned_values rep (xs, at, λ k. refl) left right v hv run in
    let (array2, rep2, n2, there2, size2, newest2) =
      returned_values rep1 newest1 left right (pos 0 -ℤ v) hv' run' in
    let old = version_count tree - 1 in
    let (there, ordered, inside) =
      query_checks_facts tree old ql qr (query_checks_passed tree old ql qr before) in
    let first =
      newest_answer rep (xs, at, λ k. refl) old ql qr (omega (arith, rep.count)) s
        (Result.value (range_sum_answers rep old ql qr) before) in
    let same =
      seg_sum-congr _ (of_list xs) ql qr (λ k p q. taken_back (of_list xs) left right v k) in
    rw (first, ← same)
      (newest_outcome rep2 newest2 undone ql qr n2 there2 ordered (rw (size2, size1) inside))
