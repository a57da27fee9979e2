-- ===== src/PolicyTrees/PointMaterialized/Query.antt =====
-- The recursion of query of PointMaterializedPersistentTree.
use version_aware_lazy_segtr.Prelude.{
  ℕ, zero, suc, ◌-◌, ◌≤◌, ◌<◌, ◌≡◌, inl, inr, arith, ◌||◌, true, false, covers, ltb, Bool-cases,
}
use version_aware_lazy_segtr.Prelude.Result
use version_aware_lazy_segtr.Prelude.Result.{Gives, gives}
use version_aware_lazy_segtr.Size.{midpoint}
use version_aware_lazy_segtr.Policy.Interface.{Policy, Laws}
use version_aware_lazy_segtr.PolicyTrees.PointMaterialized.{Node, Arena, query}
use version_aware_lazy_segtr.PolicyTrees.PointMaterialized.Holds.{Holds, leaf, inner, IsExact}
use version_aware_lazy_segtr.PolicyTrees.Fold.{Elements}
use version_aware_lazy_segtr.PolicyTrees.Query.{Answers, missed, combined, later, earlier}

module _ {A B : Type 0} {p : Policy A B} (laws : Laws p) (ql qr : ℕ) (ordered : ql ≤ qr) where
  covered :
      (f : Elements A) (n : Node A) (l r : ℕ)
      → l ≤ r
      → IsExact laws n f l r
      → covers ql qr l r ≡ true
      → Answers laws ql qr ordered f l r n.aggregate
  covered f n l r le (e, fit) full =
      let met : (ltb r ql || ltb qr l) ≡ false = ground arith in
      let first : later ql l ≡ l = ground arith in
      let last : earlier qr r ≡ r = ground arith in (fit, inr (met, rw (first, last) e))

  pub query-Answers :
      (fuel : ℕ) {nodes : Arena A} {i l r : ℕ} {f : Elements A}
      → Holds laws nodes i f l r
      → r - l < fuel
      → Gives (Answers laws ql qr ordered f l r) laws.Throws (query p fuel nodes i l r ql qr)
  unfolding query
  query-Answers zero x enough = absurd (omega arith)
  query-Answers (suc fuel) (leaf {l} {r} {f} {n} at e x) enough =
      elim (Bool-cases (ltb r ql || ltb qr l)) [
        | inl out ↦ rw out (gives (missed laws ql qr ordered f l r out))
        | inr met ↦
            let full : covers ql qr l r ≡ true = ground arith in
            rw (met, at, full) (gives (covered f n l r (omega arith) x full))
      ]
  query-Answers (suc fuel) (inner {l} {r} {f} {n} at lt x a b) enough =
      elim (Bool-cases (ltb r ql || ltb qr l)) [
        | inl out ↦ rw out (gives (missed laws ql qr ordered f l r out))
        | inr met ↦ elim (Bool-cases (covers ql qr l r)) [
          | inl full ↦ rw (met, at, full) (gives (covered f n l r (omega arith) x full))
          | inr partial ↦
              rw (met, at, partial)
                (Result.bind (query-Answers fuel a (omega arith)) λ c answer_a.
                  Result.bind (query-Answers fuel b (omega arith)) λ d answer_b.
                    combined laws ql qr ordered f l (midpoint l r) r c d (omega arith, omega arith)
                      met answer_a answer_b)
        ]
      ]
