-- ===== src/Persistent/Preserve.antt =====
-- The answers of older versions of PersistentLazySegmentTree, before and behind an update.
use version_aware_lazy_segtr.Prelude.{
  ℕ, zero, suc, ◌<◌, ◌≡◌, refl, inl, inr, true, some, [], ◌∷◌, ◌||◌, arith, ltb, covers, ap,
  not_misses, Bool-cases, length, length-append, get_elem?, get_elem?-append, get_elem?-get_or,
  get_or,
}
use version_aware_lazy_segtr.Prelude.Int.{ℤ, pos}
use version_aware_lazy_segtr.Prelude.Result.{ok, Result-cases}
use version_aware_lazy_segtr.Prelude.Run
use version_aware_lazy_segtr.Prelude.Run.{Ends}
use version_aware_lazy_segtr.Policy.{IsLong, checked_add}
use version_aware_lazy_segtr.Segment.{Values}
use version_aware_lazy_segtr.BruteForce.{BruteForceArray}
use version_aware_lazy_segtr.Arena.{Extends, Extends-get}
use version_aware_lazy_segtr.Persistent.{
  Arena, PersistentLazySegmentTree, query, range_add, range_sum, validate_initialized,
  validate_version, validate_range,
}
use version_aware_lazy_segtr.Persistent.Holds.{Holds, leaf, inner}
use version_aware_lazy_segtr.Persistent.Represents.{Represents}
use version_aware_lazy_segtr.Persistent.Publish.{Grows}
use version_aware_lazy_segtr.Persistent.Refine.{range_add-refines}
use version_aware_lazy_segtr.Persistent.History.{
  answer_steps, query_checks, query_checks_facts, range_sum-checks,
}

module _ (ql qr : ℕ) {nodes nodes' : Arena} (ext : Extends nodes nodes') where
  -- A query below a node reads only nodes that were there before.
  query-Extends :
      (fuel : ℕ) {i l r : ℕ} {f : Values} (acc : ℤ)
      → Holds nodes i f l r
      → query fuel nodes' i l r ql qr acc ≡ query fuel nodes i l r ql qr acc
  unfolding query
  query-Extends zero acc h = refl
  query-Extends (suc fuel) acc (leaf {i} {l} {r} {n} at e x) =
      elim (Bool-cases (ltb r ql || ltb qr l)) [
        | inl off ↦ rw off
        | inr on ↦
            let meets = not_misses ql qr l r on in
            let full : covers ql qr l r ≡ true = ground arith in
            rw (on, at, Extends-get i n ext at, full)
      ]
  query-Extends (suc fuel) acc (inner {i} {l} {r} {n} at below a b same x) =
      elim (Bool-cases (ltb r ql || ltb qr l)) [
        | inl off ↦ rw off
        | inr on ↦ elim (Bool-cases (covers ql qr l r)) [
          | inl full ↦ rw (on, at, Extends-get i n ext at, full)
          | inr partial ↦ elim (Result-cases (checked_add acc n.lazy)) [
            | inl (next, e) ↦ rw (
              on,
              at,
              Extends-get i n ext at,
              partial,
              e,
              query-Extends fuel next a,
              query-Extends fuel next b,
            )
            | inr (d, e) ↦ rw (on, at, Extends-get i n ext at, partial, e)
          ]
        ]
      ]

module _ {tree tree' : PersistentLazySegmentTree} {array : BruteForceArray}
    (rep : Represents tree array) (grown : Grows tree tree') (version left right : ℕ)
    (old : version < length tree.roots) where
  checks_kept : query_checks tree' version left right ≡ query_checks tree version left right
  unfolding validate_initialized validate_version validate_range
  checks_kept =
      rw grown.size_kept
        (ground (arith, ap length grown.roots_kept, length-append tree.roots (grown.new_root ∷ [])))

  steps_kept :
      query_checks tree version left right ≡ ok tt
      → answer_steps tree' version left right ≡ answer_steps tree version left right
  unfolding answer_steps
  steps_kept fits =
      let root = get_or tree.roots version 0 in
      let at = get_elem?-get_or tree.roots version 0 old in
      let (xs, _, v) = rep.versions version root at in
      let at' : get_elem? tree'.roots version ≡ some root =
        rw grown.roots_kept (get_elem?-append tree.roots (grown.new_root ∷ []) version root at) in
      let facts = query_checks_facts tree version left right fits in
      rw (at, at', grown.size_kept)
        (query-Extends left right grown.nodes_kept tree.array_size (pos 0) (v.shape (omega arith)))

  -- An older version answers every query as before, an exception included.
  pub answer_kept : range_sum version left right tree' ≡ range_sum version left right tree
  answer_kept =
      rw
        (
          range_sum-checks tree' version left right,
          range_sum-checks tree version left right,
          checks_kept,
        )
        (elim (Result-cases (query_checks tree version left right)) [
          | inl (u, fits) ↦ rw fits (steps_kept fits)
          | inr (e, bad) ↦ rw bad
        ])

-- On a tree in step with a brute-force array, every query of a version that was published before
-- an update by a long long has the same outcome behind it, value or exception, whether the update
-- was published or thrown back.
pub range_add-preserves :
    {tree : PersistentLazySegmentTree} {array : BruteForceArray}
    → Represents tree array
    → (left right : ℕ) (v : ℤ) → IsLong v
    → (version ql qr : ℕ) → version < length tree.roots
    → Ends
        (λ number tree'. range_sum version ql qr tree' ≡ range_sum version ql qr tree)
        (λ e tree'. range_sum version ql qr tree' ≡ range_sum version ql qr tree)
        (range_add left right v tree)
range_add-preserves rep left right v hv version ql qr old =
    Run.mono (range_add-refines rep left right v hv)
      (λ number tree' (array', added, rep', grown). answer_kept rep grown version ql qr old)
      (λ e tree' (same, why). rw same)
