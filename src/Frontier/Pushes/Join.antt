-- ===== src/Frontier/Pushes/Join.antt =====
-- The new node over both children of a partial descent, in a copy-on-push tree, and the pushes that
-- PushCountingModel has counted by then.
use version_aware_lazy_segtr.Prelude.{
  ℕ, ◌+◌, ◌-◌, ◌*◌, ◌<◌, ◌≡◌, refl, ◌∙◌, inl, inr, arith, some, List, length, get_elem?,
}
use version_aware_lazy_segtr.Prelude.Run
use version_aware_lazy_segtr.Prelude.Run.{
  Run, Ends, Action, done, lift, pure, and_then, returns, raises, ◌>>=◌,
}
use version_aware_lazy_segtr.Size.{midpoint}
use version_aware_lazy_segtr.Arena.{Extends, Extends-refl, Extends-trans, read, append}
use version_aware_lazy_segtr.Policy.Interface.{Policy}
use version_aware_lazy_segtr.PolicyTrees.PathCopying.{node, Arena, Descent}
use version_aware_lazy_segtr.Frontier.Pushes.Tags.{
  OnlyBelow-trans, OnlyBelow-child, left_apart, parent_kept,
}
use version_aware_lazy_segtr.Frontier.Pushes.Mirrors.{Mirrors, inner, top, top_there, Mirrors-kept}
use version_aware_lazy_segtr.Frontier.Pushes.Push.{IsPushed, append-Adds}
use version_aware_lazy_segtr.Frontier.Pushes.Child.{Updated, Grew}

module _ {A B : Type 0} (p : Policy A B) where
  -- The tail of update.
  abbrev joined : (i j : ℕ) → B → ℕ → Action (Arena A B) ℕ
  joined i j t len = do
    left ← read i
    right ← read j
    children ← lift (p.combine left.aggregate right.aggregate)
    aggregate ← lift (p.apply t children len)
    append (node i j aggregate t)

  -- The new record over both children.
  join-Mirrors :
      {nodes : Arena A B} {tags : List B} (i j c l r : ℕ) (t : B) (len : ℕ)
      → l < r
      → get_elem? tags c ≡ some t
      → Mirrors nodes tags i (2 * c + 1) l (midpoint l r)
      → Mirrors nodes tags j (2 * c + 2) (midpoint l r + 1) r
      → Ends
          (λ k nodes'.
            Extends nodes nodes' × (length nodes' ≡ length nodes + 1) × Mirrors nodes' tags k c l r)
          (Grew nodes)
          (joined i j t len nodes)
  join-Mirrors {nodes} {tags} i j c l r t len lt tag a b =
      let same = Extends-refl nodes in
      rw ((top_there a).0, (top_there b).0)
        (Run.calculates (p.combine (top a).aggregate (top b).aggregate) _ nodes
          (λ children.
            Run.calculates (p.apply t children len) _ nodes
              (λ aggregate.
                Run.mono (append-Adds (node i j aggregate t) nodes)
                  (λ k nodes' (x, new, more). (
                    x,
                    more,
                    inner new tag lt (Mirrors-kept x (λ k below. refl) a)
                        (Mirrors-kept x (λ k below. refl) b),
                  ))
                  (λ e s x. x))
              (λ e. same))
          (λ e. same))

  -- The end of a partial descent: the counts of the push and of both children.
  pub joined-Updated :
      {nodes nodes1 nodes2 nodes3 : Arena A B} {tags : List B} {c l r i j : ℕ} {d : Descent B}
      {pushing left_model right_model : Run (List B) ℕ} (model : Run (List B) ℕ)
      {k k' most most' : ℕ}
      → l < r
      → (x : IsPushed p nodes tags c l r pushing d nodes1)
      → (y : Updated x.pushes k most nodes1 x.tags'
          (2 * c + 1)
          l
          (midpoint l r)
          left_model
          i
          nodes2)
      → (z : Updated y.total k' most' nodes2 y.tags'
          (2 * c + 2)
          (midpoint l r + 1)
          r
          right_model
          j
          nodes3)
      → model ≡ done z.total z.tags'
      → Ends
          (Updated 0 (1 + k + k') (1 + most + most') nodes tags c l r model)
          (Grew nodes)
          (joined i j d.retained (r - l + 1) nodes3)
  joined-Updated {c} {l} {r} {i} {j} {d} model lt x y z runs =
      let a = Mirrors-kept z.grown (left_apart c z.only) y.mirrored in
      let tag1 = parent_kept c (2 * c + 1) (inl refl) y.only ∙ x.tag_there in
      let tag2 = parent_kept c (2 * c + 2) (inr refl) z.only ∙ tag1 in
      let grown = Extends-trans x.grown (Extends-trans y.grown z.grown) in
      Run.mono (join-Mirrors i j c l r d.retained (r - l + 1) lt tag2 a z.mirrored)
        (λ o nodes4 (ext, one, whole). record {
          pushes = x.pushes + y.pushes + z.pushes;
          total = z.total;
          tags' = z.tags';
          runs = runs;
          sum = omega (arith, y.sum, z.sum);
          few = omega (arith, x.few, y.few, z.few);
          grown = Extends-trans grown ext;
          count = omega (arith, x.count, y.count, z.count);
          only = OnlyBelow-trans x.only (
              OnlyBelow-trans (OnlyBelow-child (inl refl) y.only)
                (OnlyBelow-child (inr refl) z.only));
          mirrored = whole;
        })
        (λ e s w. Extends-trans grown w)
