-- ===== src/Tagless/Query.antt =====
-- The recursion of query, which the trees without tags share.
use version_aware_lazy_segtr.Prelude.{
  ℕ, zero, suc, ◌-◌, ◌≤◌, ◌<◌, ◌≡◌, sym, inl, inr, ◌⊎◌, true, ◌||◌, arith, ltb, covers, Bool-cases,
  covers→le, misses→lt, not_misses,
}
use version_aware_lazy_segtr.Prelude.Int.{pos}
use version_aware_lazy_segtr.Prelude.Result
use version_aware_lazy_segtr.Prelude.Result.{Gives, gives, IsOverflow, ok}
use version_aware_lazy_segtr.Policy.Arithmetic.{Exact, checked_add-Gives}
use version_aware_lazy_segtr.Size.{midpoint}
use version_aware_lazy_segtr.Segment.{Values, seg_sum, within}
use version_aware_lazy_segtr.Segment.Sum.{seg_sum-split, within_outside, within_inside}
use version_aware_lazy_segtr.Tagless.{Node, Arena, query}
use version_aware_lazy_segtr.Tagless.Holds.{IsExact, Holds, leaf, inner}

module _ (ql qr : ℕ) where
  missed :
      (f : Values) (l r : ℕ) → (r < ql) ⊎ (qr < l) → Exact (seg_sum (within f ql qr) l r) (pos 0)
  missed f l r h = let e = within_outside f ql qr l r h in (sym e, rw e (omega arith))

  covered :
      (f : Values) (n : Node) (l r : ℕ)
      → IsExact n f l r
      → (ql ≤ l) × (r ≤ qr)
      → Exact (seg_sum (within f ql qr) l r) n.sum
  covered f n l r (e, h) (p, q) =
      let inside = within_inside f ql qr l r p q in (rw inside e, rw (inside, ← e) h)

  pub query-Gives :
      (fuel : ℕ) {nodes : Arena} {i l r : ℕ} {f : Values}
      → Holds nodes i f l r
      → l ≤ r
      → r - l < fuel
      → Gives (Exact (seg_sum (within f ql qr) l r)) IsOverflow (query fuel nodes i l r ql qr)
  unfolding query
  query-Gives zero h le enough = absurd (omega arith)
  query-Gives (suc fuel) (leaf {l} {r} {f} {n} at e x) le enough =
      elim (Bool-cases (ltb r ql || ltb qr l)) [
        | inl off ↦ rw off (gives (missed f l r (misses→lt ql qr l r off)))
        | inr on ↦
            let (p, q) = not_misses ql qr l r on in
            let full : covers ql qr l r ≡ true = ground arith in
            rw (on, at, full) (gives (covered f n l r x (covers→le ql qr l r full)))
      ]
  query-Gives (suc fuel) (inner {l} {r} {f} {n} at below a b x) le enough =
      elim (Bool-cases (ltb r ql || ltb qr l)) [
        | inl off ↦ rw off (gives (missed f l r (misses→lt ql qr l r off)))
        | inr on ↦ elim (Bool-cases (covers ql qr l r)) [
          | inl full ↦ rw (on, at, full) (gives (covered f n l r x (covers→le ql qr l r full)))
          | inr partial ↦
              rw (on, at, partial)
                (Result.bind (query-Gives fuel a (omega arith) (omega arith)) λ s (es, hs).
                  Result.bind (query-Gives fuel b (omega arith) (omega arith)) λ t (et, ht).
                    let split =
                      seg_sum-split (within f ql qr) l (midpoint l r) r (omega arith)
                        (omega arith) in
                    rw (es, et, split) (checked_add-Gives _ _ hs ht))
        ]
      ]
