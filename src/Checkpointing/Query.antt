-- ===== src/Checkpointing/Query.antt =====
-- The recursion of query in src/checkpointing_segment_tree.cpp.
use version_aware_lazy_segtr.Prelude.{
  ℕ, zero, suc, ◌+◌, ◌-◌, ◌≤◌, ◌<◌, ◌≡◌, inl, inr, true, List, ◌||◌, arith, ltb, covers, Bool-cases,
  covers→le, misses→lt, not_misses,
}
use version_aware_lazy_segtr.Prelude.Int.{ℤ, ◌+ℤ◌}
use version_aware_lazy_segtr.Prelude.Result
use version_aware_lazy_segtr.Prelude.Result.{Gives, gives, IsOverflow, ◌>>=◌}
use version_aware_lazy_segtr.Policy.{IsLong}
use version_aware_lazy_segtr.Policy.Arithmetic.{Exact, checked_add-Gives}
use version_aware_lazy_segtr.Policy.SumAdd.{apply}
use version_aware_lazy_segtr.Policy.SumAdd.Exact.{apply-Gives}
use version_aware_lazy_segtr.Size.{inclusive_length}
use version_aware_lazy_segtr.Size.Exact.{inclusive_length-Gives}
use version_aware_lazy_segtr.Segment.{Values}
use version_aware_lazy_segtr.Persistent.Query.{answer, covered_answer, missed_answer, split_answer}
use version_aware_lazy_segtr.Checkpointing.Nodes.{Node, query}
use version_aware_lazy_segtr.Checkpointing.Holds.{IsExact, Holds, leaf, inner}
use version_aware_lazy_segtr.Checkpointing.Layout.{right_child-Gives}

module _ (ql qr : ℕ) (nodes : List Node) where
  covered_query :
      {l r : ℕ} {f : Values} (n : Node) (acc : ℤ)
      → IsExact n f l r
      → l ≤ r
      → (ql ≤ l) × (r ≤ qr)
      → IsLong acc
      → Gives
          (Exact (answer ql qr f acc l r))
          IsOverflow
          (inclusive_length l r >>= λ length. apply acc n.sum length)
  covered_query {l} {r} {f} n acc x le (p, q) ha =
      let total = covered_answer ql qr f acc l r p q in
      Result.bind (inclusive_length-Gives l r le) λ len elen. rw elen (
        Result.mono (apply-Gives acc n.sum (r + 1 - l) ha x.sum_long)
          (λ s h. rw (← total, ← x.sum_exact) h) (λ e h. h))

  pub query-Gives :
      (fuel : ℕ) {i l r : ℕ} {f : Values} (acc : ℤ)
      → Holds nodes i f l r
      → l ≤ r
      → r - l < fuel
      → IsLong acc
      → Gives (Exact (answer ql qr f acc l r)) IsOverflow (query fuel nodes i l r ql qr acc)
  unfolding query
  query-Gives zero acc h le enough ha = absurd (omega arith)
  query-Gives (suc fuel) {f} acc (leaf {l} {r} {n} at e x) le enough ha =
      elim (Bool-cases (ltb r ql || ltb qr l)) [
        | inl off ↦ rw off (gives (missed_answer ql qr f acc l r (misses→lt ql qr l r off)))
        | inr on ↦
            let (p, q) = not_misses ql qr l r on in
            let full : covers ql qr l r ≡ true = ground arith in
            rw (on, at, full) (covered_query n acc x le (covers→le ql qr l r full) ha)
      ]
  query-Gives (suc fuel) {f} acc (inner {i} {l} {r} {g} {n} at below a b same x) le enough ha =
      elim (Bool-cases (ltb r ql || ltb qr l)) [
        | inl off ↦ rw off (gives (missed_answer ql qr f acc l r (misses→lt ql qr l r off)))
        | inr on ↦ elim (Bool-cases (covers ql qr l r)) [
          | inl full ↦ rw (on, at, full) (covered_query n acc x le (covers→le ql qr l r full) ha)
          | inr partial ↦
              rw (on, at, partial)
                (Result.bind (checked_add-Gives acc n.lazy ha x.lazy_long) λ next (en, hn). rw en (
                  Result.bind (query-Gives fuel (acc +ℤ n.lazy) a (omega arith) (omega arith) hn)
                    λ s (es, hs). Result.bind (right_child-Gives i l r le) λ j ej. rw ej (
                      Result.bind
                        (query-Gives fuel (acc +ℤ n.lazy) b (omega arith) (omega arith) hn)
                        λ u (eu, hu).
                          rw (es, eu, ← split_answer ql qr f g n.lazy acc l r below same)
                            (checked_add-Gives _ _ hs hu))))
        ]
      ]
