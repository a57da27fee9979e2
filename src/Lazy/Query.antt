-- ===== src/Lazy/Query.antt =====
-- The recursion of query in src/lazy_segment_tree.cpp.
use version_aware_lazy_segtr.Prelude.{
  ℕ, zero, suc, ◌+◌, ◌-◌, ◌≤◌, ◌<◌, ◌≡◌, inl, inr, true, ◌||◌, arith, ltb, covers, Bool-cases,
  covers→le, misses→lt, not_misses,
}
use version_aware_lazy_segtr.Prelude.Int.{ℤ, ◌+ℤ◌}
use version_aware_lazy_segtr.Prelude.Result
use version_aware_lazy_segtr.Prelude.Result.{Gives, gives, IsOverflow, ◌>>=◌}
use version_aware_lazy_segtr.Policy.{IsLong}
use version_aware_lazy_segtr.Policy.Arithmetic.{Exact, checked_add-Gives}
use version_aware_lazy_segtr.Policy.SumAdd.{apply}
use version_aware_lazy_segtr.Policy.SumAdd.Exact.{apply-Gives}
use version_aware_lazy_segtr.Size.{inclusive_length}
use version_aware_lazy_segtr.Size.Exact.{inclusive_length-Gives}
use version_aware_lazy_segtr.Segment.{Values}
use version_aware_lazy_segtr.Persistent.Query.{answer, covered_answer, missed_answer, split_answer}
use version_aware_lazy_segtr.Lazy.{LazySegmentTree, query, element}
use version_aware_lazy_segtr.Lazy.Holds.{Entry, Holds, leaf, inner}

module _ (ql qr : ℕ) (tree : LazySegmentTree) where
  covered_query :
      {node l r : ℕ} {f : Values} {s t : ℤ} (acc : ℤ)
      → Entry tree node s t f l r
      → l ≤ r
      → (ql ≤ l) × (r ≤ qr)
      → IsLong acc
      → Gives (Exact (answer ql qr f acc l r)) IsOverflow (
          element tree.tree node >>= λ sum. inclusive_length l r >>= λ length. apply acc sum length)
  covered_query {l} {r} {f} {s} acc e le (p, q) ha =
      let total = covered_answer ql qr f acc l r p q in
      rw e.sum_there (
        Result.bind (inclusive_length-Gives l r le) λ len elen. rw elen (
          Result.mono (apply-Gives acc s (r + 1 - l) ha e.sum_long)
            (λ s h. rw (← total, ← e.sum_exact) h) (λ e h. h)))

  pub query-Gives :
      (fuel : ℕ) {node l r : ℕ} {f : Values} (acc : ℤ)
      → Holds tree node f l r
      → l ≤ r
      → r - l < fuel
      → IsLong acc
      → Gives (Exact (answer ql qr f acc l r)) IsOverflow (query fuel tree node l r ql qr acc)
  unfolding query
  query-Gives zero acc h le enough ha = absurd (omega arith)
  query-Gives (suc fuel) {f} acc (leaf {l} {r} same e) le enough ha =
      elim (Bool-cases (ltb r ql || ltb qr l)) [
        | inl off ↦ rw off (gives (missed_answer ql qr f acc l r (misses→lt ql qr l r off)))
        | inr on ↦
            let (p, q) = not_misses ql qr l r on in
            let full : covers ql qr l r ≡ true = ground arith in
            rw (on, full) (covered_query acc e le (covers→le ql qr l r full) ha)
      ]
  query-Gives (suc fuel) {f} acc (inner {l} {r} {g} {t} below e a b same) le enough ha =
      elim (Bool-cases (ltb r ql || ltb qr l)) [
        | inl off ↦ rw off (gives (missed_answer ql qr f acc l r (misses→lt ql qr l r off)))
        | inr on ↦ elim (Bool-cases (covers ql qr l r)) [
          | inl full ↦ rw (on, full) (covered_query acc e le (covers→le ql qr l r full) ha)
          | inr partial ↦
              rw (on, partial, e.tag_there)
                (Result.bind (checked_add-Gives acc t ha e.tag_long) λ next (en, hn). rw en (
                  Result.bind (query-Gives fuel (acc +ℤ t) a (omega arith) (omega arith) hn)
                    λ s (es, hs).
                      Result.bind (query-Gives fuel (acc +ℤ t) b (omega arith) (omega arith) hn)
                        λ u (eu, hu).
                          rw (es, eu, ← split_answer ql qr f g t acc l r below same)
                            (checked_add-Gives _ _ hs hu)))
        ]
      ]
