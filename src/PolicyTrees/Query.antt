-- ===== src/PolicyTrees/Query.antt =====
-- The recursion of query of PathCopyingActionTree.
use version_aware_lazy_segtr.Prelude.{
  ℕ, zero, suc, ◌+◌, ◌-◌, ◌≤◌, ◌<◌, ◌≡◌, refl, sym, ap, ◌∙◌, ◌⊎◌, inl, inr, arith, ◌||◌, true,
  false, covers, ltb, if◌then◌else◌, Bool-cases,
}
use version_aware_lazy_segtr.Prelude.Result
use version_aware_lazy_segtr.Prelude.Result.{Error, Result, Gives, gives, ok}
use version_aware_lazy_segtr.Size.{midpoint}
use version_aware_lazy_segtr.Policy.Interface.{Policy, Laws}
use version_aware_lazy_segtr.PolicyTrees.PathCopying.{Node, Arena, query}
use version_aware_lazy_segtr.PolicyTrees.Fold.{
  Elements, fold, fold-split, fold-congr, fold-acted, acted,
}
use version_aware_lazy_segtr.PolicyTrees.Holds.{Holds, leaf, inner, Agree, IsExact}

-- The bounds of the part of a segment that the range covers.
abbrev pub later : ℕ → ℕ → ℕ
later ql l = if ltb l ql then ql else l

abbrev pub earlier : ℕ → ℕ → ℕ
earlier qr r = if ltb qr r then qr else r

module _ {A B : Type 0} {p : Policy A B} (laws : Laws p) (ql qr : ℕ) (ordered : ql ≤ qr) where
  -- What the query of a segment returns: the combination of the elements in the range, or the
  -- identity if there are none.
  abbrev pub Answers : Elements A → ℕ → ℕ → A → Type 0
  Answers f l r c =
      laws.Fit c
      × (((ltb r ql || ltb qr l) ≡ true) × (c ≡ p.aggregate_identity)
          ⊎ ((ltb r ql || ltb qr l) ≡ false) × (c ≡ fold laws.plus f (later ql l) (earlier qr r)))

  pub missed :
      (f : Elements A) (l r : ℕ)
      → (ltb r ql || ltb qr l) ≡ true
      → Answers f l r p.aggregate_identity
  missed f l r out = (laws.identity_fit, inl (out, refl))

  Answers-congr :
      (f g : Elements A) (l r : ℕ) (c : A)
      → l ≤ r
      → Agree laws f g l r
      → Answers f l r c
      → Answers g l r c
  Answers-congr f g l r c le same (fit, inl out) = (fit, inl out)
  Answers-congr f g l r c le same (fit, inr (met, e)) = (
    fit,
    inr (
      met,
      e
          ∙ fold-congr laws.plus f g (later ql l) (earlier qr r) (ground arith)
              (λ k u v. same k (ground arith) (ground arith)),
    ),
  )

  -- A covered node, with the actions of its ancestors.
  covered :
      (f : Elements A) (n : Node A B) (l r : ℕ) (h : B)
      → l ≤ r
      → IsExact laws n f l r
      → laws.Good h
      → covers ql qr l r ≡ true
      → Gives (Answers (acted laws h f) l r) laws.Throws (p.apply h n.aggregate (r - l + 1))
  covered f n l r h le (e, fit, _) good full =
      Result.mono (laws.apply_gives (r - l + 1) (omega arith) good fit)
        (λ c (ec, fit_c).
          let met : (ltb r ql || ltb qr l) ≡ false = ground arith in
          let first : later ql l ≡ l = ground arith in
          let last : earlier qr r ≡ r = ground arith in
          (
            fit_c,
            inr (
              met,
              rw (first, last)
                  (ec
                    ∙ ap (λ x. laws.act h x (r - l + 1)) e
                    ∙ sym (fold-acted laws h f l r le good)),
            ),
          ))
        (λ e bad. bad)

  -- The two halves, either of which may be missed.
  pub combined :
      (f : Elements A) (l m r : ℕ) (a b : A)
      → (l ≤ m) × (m < r)
      → (ltb r ql || ltb qr l) ≡ false
      → Answers f l m a
      → Answers f (m + 1) r b
      → Gives (Answers f l r) laws.Throws (p.combine a b)
  combined f l m r a b (low, high) met (fit_a, answer_a) (fit_b, answer_b) =
      Result.mono (laws.combine_gives fit_a fit_b)
        (λ c (ec, fit_c). (fit_c, inr (met, ec ∙ both answer_a answer_b))) (λ e bad. bad)
    where
      both :
          (((ltb m ql || ltb qr l) ≡ true) × (a ≡ p.aggregate_identity)
            ⊎ ((ltb m ql || ltb qr l) ≡ false) × (a ≡ fold laws.plus f (later ql l) (earlier qr m)))
          → (((ltb r ql || ltb qr (m + 1)) ≡ true) × (b ≡ p.aggregate_identity)
              ⊎ ((ltb r ql || ltb qr (m + 1)) ≡ false)
                × (b ≡ fold laws.plus f (later ql (m + 1)) (earlier qr r)))
          → laws.plus a b ≡ fold laws.plus f (later ql l) (earlier qr r)
      both (inl (out, ea)) (inl (out', eb)) = absurd (ground arith)
      both (inl (out, ea)) (inr (on', eb)) =
          let first : later ql (m + 1) ≡ later ql l = ground arith in
          rw ea (laws.identity_plus fit_b) ∙ rw first at eb
      both (inr (on, ea)) (inl (out', eb)) =
          let last : earlier qr m ≡ earlier qr r = ground arith in
          rw eb (laws.plus_identity fit_a) ∙ rw last at ea
      both (inr (on, ea)) (inr (on', eb)) =
          let last : earlier qr m ≡ m = ground arith in
          let first : later ql (m + 1) ≡ m + 1 = ground arith in
          let split =
            fold-split laws.plus laws.plus_assoc f (later ql l) m (earlier qr r) (ground arith)
              (ground arith) in
          rw (ea, eb, last, first) (sym split)

  pub query-Answers :
      (fuel : ℕ) {nodes : Arena A B} {i l r : ℕ} {f : Elements A} (h : B)
      → Holds laws nodes i f l r
      → laws.Good h
      → r - l < fuel
      → Gives (Answers (acted laws h f) l r) laws.Throws (query p fuel nodes i l r ql qr h)
  unfolding query
  query-Answers zero h x good enough = absurd (omega arith)
  query-Answers (suc fuel) h (leaf {l} {r} {f} {n} at e x s) good enough =
      elim (Bool-cases (ltb r ql || ltb qr l)) [
        | inl out ↦ rw out (gives (missed (acted laws h f) l r out))
        | inr met ↦
            let full : covers ql qr l r ≡ true = ground arith in
            rw (met, at, full) (covered f n l r h (omega arith) x good full)
      ]
  query-Answers (suc fuel) h (inner {l} {r} {f} {g} {n} at lt x s ha hb agree) good enough =
      elim (Bool-cases (ltb r ql || ltb qr l)) [
        | inl out ↦ rw out (gives (missed (acted laws h f) l r out))
        | inr met ↦ elim (Bool-cases (covers ql qr l r)) [
          | inl full ↦ rw (met, at, full) (covered f n l r h (omega arith) x good full)
          | inr partial ↦
              let m = midpoint l r in
              rw (met, at, partial)
                (Result.bind (laws.compose_gives good x.2) λ next (en, good_next).
                  let through : Agree laws (acted laws next g) (acted laws h f) l r = λ k u v.
                    ap (λ y. laws.act y (g k) 1) en
                    ∙ laws.act_comp (g k) 1 good x.2
                    ∙ ap (λ y. laws.act h y 1) (sym (agree k u v)) in
                  Result.bind (query-Answers fuel next ha good_next (omega arith)) λ a answer_a.
                    Result.bind (query-Answers fuel next hb good_next (omega arith)) λ b answer_b.
                      Result.mono
                        (combined (acted laws next g) l m r a b (omega arith, omega arith) met
                          answer_a answer_b)
                        (λ c answer.
                          Answers-congr (acted laws next g) (acted laws h f) l r c (omega arith)
                            through answer)
                        (λ e bad. bad))
        ]
      ]
