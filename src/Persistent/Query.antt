-- ===== src/Persistent/Query.antt =====
-- The recursion of query in src/persistent_lazy_segment_tree.cpp.
use version_aware_lazy_segtr.Prelude.{
  ℕ, zero, suc, ◌+◌, ◌-◌, ◌≤◌, ◌<◌, ◌≡◌, sym, ◌∙◌, inl, inr, ◌⊎◌, true, ◌||◌, arith, ltb, covers,
  Bool-cases, covers→le, misses→lt, not_misses,
}
use version_aware_lazy_segtr.Prelude.Int.{ℤ, pos, ◌+ℤ◌, ◌*ℤ◌, int_laws}
use version_aware_lazy_segtr.Prelude.Result
use version_aware_lazy_segtr.Prelude.Result.{Gives, gives, IsOverflow, ◌>>=◌}
use version_aware_lazy_segtr.Policy.{IsLong}
use version_aware_lazy_segtr.Policy.Arithmetic.{Exact, checked_add-Gives}
use version_aware_lazy_segtr.Policy.SumAdd.{apply}
use version_aware_lazy_segtr.Policy.SumAdd.Exact.{apply-Gives}
use version_aware_lazy_segtr.Size.{midpoint, inclusive_length}
use version_aware_lazy_segtr.Size.Exact.{inclusive_length-Gives}
use version_aware_lazy_segtr.Segment.{Values, seg_sum, within, plus}
use version_aware_lazy_segtr.Segment.Sum.{
  Agree, seg_sum-split, seg_sum-congr, seg_sum-plus, within_outside, within_inside,
}
use version_aware_lazy_segtr.Persistent.Write.{Node, Arena}
use version_aware_lazy_segtr.Persistent.Read.{query}
use version_aware_lazy_segtr.Persistent.Holds.{IsExact, Holds, leaf, inner}

-- Moving a tag from a node to what its children inherit changes no value.
within-plus :
    (f g : Values) (t acc : ℤ) (ql qr l r : ℕ)
    → Agree f (plus g t) l r
    → Agree (within (plus f acc) ql qr) (within (plus g (acc +ℤ t)) ql qr) l r
within-plus f g t acc ql qr l r same k p q = elim (Bool-cases (covers ql qr k k)) [
  | inl on ↦ rw (on, same k p q) (omega int_laws)
  | inr off ↦ rw off
]

module _ (ql qr : ℕ) where
  -- The sum that a query returns.
  abbrev pub answer : Values → ℤ → ℕ → ℕ → ℤ
  answer f acc l r = seg_sum (within (plus f acc) ql qr) l r

  pub covered_answer :
      (f : Values) (acc : ℤ) (l r : ℕ)
      → ql ≤ l
      → r ≤ qr
      → seg_sum f l r +ℤ acc *ℤ pos (r + 1 - l) ≡ answer f acc l r
  covered_answer f acc l r p q =
      sym (within_inside (plus f acc) ql qr l r p q ∙ seg_sum-plus f acc l r)

  pub missed_answer :
      (f : Values) (acc : ℤ) (l r : ℕ) → (r < ql) ⊎ (qr < l) → Exact (answer f acc l r) (pos 0)
  missed_answer f acc l r h =
      let e : answer f acc l r ≡ pos 0 = within_outside (plus f acc) ql qr l r h in
      (sym e, rw e (omega arith))

  pub split_answer :
      (f g : Values) (t acc : ℤ) (l r : ℕ)
      → l < r
      → Agree f (plus g t) l r
      → answer g (acc +ℤ t) l (midpoint l r) +ℤ answer g (acc +ℤ t) (midpoint l r + 1) r
        ≡ answer f acc l r
  split_answer f g t acc l r below same = sym (
      seg_sum-congr (within (plus f acc) ql qr) (within (plus g (acc +ℤ t)) ql qr) l r
        (within-plus f g t acc ql qr l r same)
      ∙ seg_sum-split (within (plus g (acc +ℤ t)) ql qr) l (midpoint l r) r (omega arith)
          (omega arith))

  covered_query :
      {l r : ℕ} {f : Values} (n : Node) (acc : ℤ)
      → IsExact n f l r
      → l ≤ r
      → (ql ≤ l) × (r ≤ qr)
      → IsLong acc
      → Gives
          (Exact (answer f acc l r))
          IsOverflow
          (inclusive_length l r >>= λ length. apply acc n.sum length)
  covered_query {l} {r} {f} n acc x le (p, q) ha =
      let answer = covered_answer f acc l r p q in
      Result.bind (inclusive_length-Gives l r le) λ len elen. rw elen (
        Result.mono (apply-Gives acc n.sum (r + 1 - l) ha x.sum_long)
          (λ s h. rw (← answer, ← x.sum_exact) h) (λ e h. h))

  pub query-Gives :
      (fuel : ℕ) {nodes : Arena} {i l r : ℕ} {f : Values} (acc : ℤ)
      → Holds nodes i f l r
      → l ≤ r
      → r - l < fuel
      → IsLong acc
      → Gives (Exact (answer f acc l r)) IsOverflow (query fuel nodes i l r ql qr acc)
  unfolding query
  query-Gives zero acc h le enough ha = absurd (omega arith)
  query-Gives (suc fuel) {f} acc (leaf {l} {r} {n} at e x) le enough ha =
      elim (Bool-cases (ltb r ql || ltb qr l)) [
        | inl off ↦ rw off (gives (missed_answer f acc l r (misses→lt ql qr l r off)))
        | inr on ↦
            let (p, q) = not_misses ql qr l r on in
            let full : covers ql qr l r ≡ true = ground arith in
            rw (on, at, full) (covered_query n acc x le (covers→le ql qr l r full) ha)
      ]
  query-Gives (suc fuel) {f} acc (inner {l} {r} {g} {n} at below a b same x) le enough ha =
      elim (Bool-cases (ltb r ql || ltb qr l)) [
        | inl off ↦ rw off (gives (missed_answer f acc l r (misses→lt ql qr l r off)))
        | inr on ↦ elim (Bool-cases (covers ql qr l r)) [
          | inl full ↦ rw (on, at, full) (covered_query n acc x le (covers→le ql qr l r full) ha)
          | inr partial ↦
              rw (on, at, partial)
                (Result.bind (checked_add-Gives acc n.lazy ha x.lazy_long) λ next (en, hn). rw en (
                  Result.bind (query-Gives fuel (acc +ℤ n.lazy) a (omega arith) (omega arith) hn)
                    λ s (es, hs).
                      Result.bind
                        (query-Gives fuel (acc +ℤ n.lazy) b (omega arith) (omega arith) hn)
                        λ t (et, ht).
                          rw (es, et, ← split_answer f g n.lazy acc l r below same)
                            (checked_add-Gives _ _ hs ht)))
        ]
      ]
