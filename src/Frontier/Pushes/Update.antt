-- ===== src/Frontier/Pushes/Update.antt =====
-- The recursion of update in a copy-on-push tree and in PushCountingModel, side by side.
use version_aware_lazy_segtr.Prelude.{
  ℕ, zero, suc, ◌+◌, ◌-◌, ◌*◌, ◌≤◌, ◌<◌, ◌≡◌, refl, inl, inr, true, false, arith, some, List,
  get_elem?, Bool-cases, covers, leb, ltb, set,
}
use version_aware_lazy_segtr.Prelude.Run
use version_aware_lazy_segtr.Prelude.Run.{
  Run, Ends, Action, done, lift, pure, and_then, returns, raises, ◌>>=◌,
}
use version_aware_lazy_segtr.Prelude.Vector.{assigned-ok}
use version_aware_lazy_segtr.Size.{midpoint, size_max}
use version_aware_lazy_segtr.Arena.{Extends-trans}
use version_aware_lazy_segtr.Policy.Interface.{Policy}
use version_aware_lazy_segtr.PolicyTrees.PathCopying
use version_aware_lazy_segtr.PolicyTrees.PathCopying.{Node, node, Arena, push_into, Descent}
use version_aware_lazy_segtr.Frontier.Count.{
  frontier, partials, misses, count_at-misses, count_at-covers, count_at-splits,
}
use version_aware_lazy_segtr.Frontier.Pushes.{update}
use version_aware_lazy_segtr.Frontier.Pushes.Tags.{set-OnlyBelow, right_apart}
use version_aware_lazy_segtr.Frontier.Pushes.Mirrors.{
  Mirrors, leaf, inner, top, top_there, Mirrors-kept,
}
use version_aware_lazy_segtr.Frontier.Pushes.Push.{push_into-Copied, descend-IsPushed}
use version_aware_lazy_segtr.Frontier.Pushes.Child.{Updated, Grew, child-Updated}
use version_aware_lazy_segtr.Frontier.Pushes.Join.{joined-Updated}

module _ {A B : Type 0} (p : Policy A B) (ql qr : ℕ) (action : B) where
  -- What an update below a node does, in a tree that pushes and in the model.
  abbrev pub Updates : (fuel : ℕ) → Arena A B → List B → (i c l r : ℕ) → Type 0
  Updates fuel nodes tags i c l r =
      Ends
        (Updated 0 (frontier ql qr l r) (partials ql qr l r) nodes tags c l r
          (update p fuel c l r ql qr action tags))
        (Grew nodes) (PathCopying.update p true fuel i l r ql qr action nodes)

  covered-Updates :
      (fuel : ℕ) {nodes : Arena A B} {tags : List B} {i c l r : ℕ}
      → Mirrors nodes tags i c l r
      → misses ql qr l r ≡ false
      → covers ql qr l r ≡ true
      → Updates (suc fuel) nodes tags i c l r
  unfolding update PathCopying.update push_into
  covered-Updates fuel {nodes} {tags} {i} {c} {l} {r} h met full =
      let (at, tag) = top_there h in
      let copied = push_into-Copied p action (r - l + 1) h in
      let one = count_at-covers 1 1 ql qr l r met full in
      rw (at, full)
        (Run.mono (rw at at copied)
          (λ j nodes' x. record {
            pushes = 0;
            total = 0;
            tags' = set tags c x.composed;
            runs = rw (tag, x.composes, assigned-ok tags c x.composed (top h).tag tag) refl;
            sum = refl;
            few = omega arith;
            grown = x.grown;
            count = omega (arith, x.count);
            only = set-OnlyBelow tags c x.composed;
            mirrored = x.mirrored;
          })
          (λ e s x. x))

  -- A node that the range meets without covering it, from what happens at its children.
  split-Updates :
      (fuel : ℕ) {nodes : Arena A B} {tags : List B} (i : ℕ) {c l r : ℕ} (n : Node A B)
      → get_elem? nodes i ≡ some n
      → get_elem? tags c ≡ some n.tag
      → l < r
      → Mirrors nodes tags n.left_child (2 * c + 1) l (midpoint l r)
      → Mirrors nodes tags n.right_child (2 * c + 2) (midpoint l r + 1) r
      → covers ql qr l r ≡ false
      → misses ql qr l r ≡ false
      → partials ql qr l r ≤ size_max
      → (leb ql (midpoint l r) ≡ true
          → (s : Arena A B) (t : List B) (x : ℕ) → Mirrors s t x (2 * c + 1) l (midpoint l r)
          → partials ql qr l (midpoint l r) ≤ size_max
          → Updates fuel s t x (2 * c + 1) l (midpoint l r))
      → (ltb (midpoint l r) qr ≡ true
          → (s : Arena A B) (t : List B) (x : ℕ) → Mirrors s t x (2 * c + 2) (midpoint l r + 1) r
          → partials ql qr (midpoint l r + 1) r ≤ size_max
          → Updates fuel s t x (2 * c + 2) (midpoint l r + 1) r)
      → Updates (suc fuel) nodes tags i c l r
  unfolding update PathCopying.update
  split-Updates fuel {nodes} {tags} i {c} {l} {r} n at tag lt a b partial met small step_left
        step_right =
      let m = midpoint l r in
      let k = frontier ql qr l m in
      let k' = frontier ql qr (m + 1) r in
      let most = partials ql qr l m in
      let most' = partials ql qr (m + 1) r in
      let visited = count_at-splits 1 1 ql qr l r (omega arith) met partial in
      let passed = count_at-splits 0 1 ql qr l r (omega arith) met partial in
      rw (at, partial)
        (Run.bind _ (descend-IsPushed p n c l r tag a b) (λ d nodes1 x.
          Run.bind _
            (Run.mono
              (child-Updated (leb ql m) x.pushes k most
                (λ s. PathCopying.update p true fuel d.left_child l m ql qr action s)
                (update p fuel (2 * c + 1) l m ql qr action) x.on_left (omega (arith, x.few))
                (λ go. step_left go nodes1 x.tags' d.left_child x.on_left (omega arith))
                (λ off. count_at-misses 1 1 ql qr l m (ground arith)))
              (λ j s y. y) (λ e s y. Extends-trans x.grown y))
            (λ i' nodes2 y.
              let b2 = Mirrors-kept y.grown (right_apart c y.only) x.on_right in
              Run.bind _
                (Run.mono
                  (child-Updated (ltb m qr) y.total k' most'
                    (λ s. PathCopying.update p true fuel d.right_child (m + 1) r ql qr action s)
                    (update p fuel (2 * c + 2) (m + 1) r ql qr action) b2
                    (omega (arith, x.few, y.few, y.sum))
                    (λ go. step_right go nodes2 y.tags' d.right_child b2 (omega arith))
                    (λ off. count_at-misses 1 1 ql qr (m + 1) r (ground arith)))
                  (λ j s z. z) (λ e s z. Extends-trans x.grown (Extends-trans y.grown z)))
                (λ j nodes3 z.
                  rw (visited, passed)
                    (joined-Updated p _ lt x y z (rw (x.runs, y.runs) z.runs))))))

  pub update-Updates :
      (fuel : ℕ) {nodes : Arena A B} {tags : List B} {i c l r : ℕ}
      → Mirrors nodes tags i c l r
      → r - l < fuel
      → misses ql qr l r ≡ false
      → partials ql qr l r ≤ size_max
      → Updates fuel nodes tags i c l r
  update-Updates zero h enough met small = absurd (omega arith)
  update-Updates (suc fuel) {tags = tags} (leaf {i} {c} {l} {r} at tag e) enough met small =
      covered-Updates fuel {tags = tags} (leaf {i = i} {c = c} at tag e) met (ground arith)
  update-Updates (suc fuel) {nodes = nodes} {tags = tags} (inner {i} {c} {l} {r} {n} at tag lt a b)
        enough met small =
      elim (Bool-cases (covers ql qr l r)) [
        | inl full ↦
            covered-Updates fuel {tags = tags} (inner {i = i} {c = c} at tag lt a b) met full
        | inr partial ↦
            split-Updates fuel i n at tag lt a b partial met small
              (λ go s t x h few. update-Updates fuel h (omega arith) (ground arith) few)
              (λ go s t x h few. update-Updates fuel h (omega arith) (ground arith) few)
      ]
