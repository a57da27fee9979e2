-- ===== src/Frontier/Pushes/Child.antt =====
-- What an update below a node does in a copy-on-push tree and in PushCountingModel.
use version_aware_lazy_segtr.Prelude.{
  ℕ, ◌+◌, ◌*◌, ◌≤◌, ◌≡◌, refl, Bool, true, false, arith, List, length, if◌then◌else◌,
}
use version_aware_lazy_segtr.Prelude.Run
use version_aware_lazy_segtr.Prelude.Run.{
  Run, Ends, Action, done, lift, pure, and_then, returns, raises, ◌>>=◌,
}
use version_aware_lazy_segtr.Size.{size_max, checked_size_add}
use version_aware_lazy_segtr.Arena.{Extends, Extends-refl}
use version_aware_lazy_segtr.PolicyTrees.PathCopying.{Arena}
use version_aware_lazy_segtr.Frontier.Run.{checked_size_add-ok}
use version_aware_lazy_segtr.Frontier.Pushes.Tags.{OnlyBelow, OnlyBelow-refl}
use version_aware_lazy_segtr.Frontier.Pushes.Mirrors.{Mirrors}

-- The model's call for a child, whose pushes are added.
abbrev pub adding : {B : Type 0} → (visit : Bool) → ℕ → Action (List B) ℕ → Action (List B) ℕ
adding visit before go =
    if visit then (do below ← go; lift (checked_size_add before below)) else pure before

module _ {A B : Type 0} where
  -- A record that a run of the tree returns, on top of k and two for each push, and what the run of
  -- the model hands back, which had counted some pushes before.
  pub record Updated (before k most : ℕ) (nodes : Arena A B) (tags : List B) (c l r : ℕ)
      (model : Run (List B) ℕ) (j : ℕ) (nodes' : Arena A B) : Type 0 where
    pub pushes : ℕ
    pub total : ℕ
    pub tags' : List B
    pub runs : model ≡ done total tags'
    pub sum : total ≡ before + pushes
    pub few : pushes ≤ most
    pub grown : Extends nodes nodes'
    pub count : length nodes' ≡ length nodes + (k + 2 * pushes)
    pub only : OnlyBelow c tags tags'
    pub mirrored : Mirrors nodes' tags' j c l r

  abbrev pub Grew : Arena A B → {E : Type 0} → E → Arena A B → Type 0
  Grew nodes e nodes' = Extends nodes nodes'

  -- One child: updated on both sides, or shared on both.
  pub child-Updated :
      (visit : Bool) (before k most : ℕ) {nodes : Arena A B} {tags : List B} {i c l r : ℕ}
      (go : Action (Arena A B) ℕ) (counts : Action (List B) ℕ)
      → Mirrors nodes tags i c l r
      → before + most ≤ size_max
      → (visit ≡ true
          → Ends (Updated 0 k most nodes tags c l r (counts tags)) (Grew nodes) (go nodes))
      → (visit ≡ false → k ≡ 0)
      → Ends
          (Updated before k most nodes tags c l r (adding visit before counts tags))
          (Grew nodes)
          ((if visit then go else pure i) nodes)
  child-Updated true before k most go counts h small step none_new =
      Run.mono (step refl)
        (λ j nodes' x. record {
          pushes = x.pushes;
          total = before + x.pushes;
          tags' = x.tags';
          runs =
              let total : x.total ≡ x.pushes = omega (arith, x.sum) in
              let fits = checked_size_add-ok before x.pushes (omega (arith, x.few)) in
              rw (x.runs, total, fits) refl;
          sum = refl;
          few = x.few;
          grown = x.grown;
          count = x.count;
          only = x.only;
          mirrored = x.mirrored;
        })
        (λ e s x. x)
  child-Updated false before k most {nodes} {tags} {c} go counts h small step none_new =
      let nothing = none_new refl in
      returns (record {
        pushes = 0;
        total = before;
        tags' = tags;
        runs = refl;
        sum = omega arith;
        few = omega arith;
        grown = Extends-refl nodes;
        count = omega arith;
        only = OnlyBelow-refl c tags;
        mirrored = h;
      })
