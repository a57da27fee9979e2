-- ===== src/Frontier/Pushes/Push.antt =====
-- The pushes at one node, in a copy-on-push tree and in PushCountingModel.
use version_aware_lazy_segtr.Prelude.{
  ℕ, ◌+◌, ◌-◌, ◌*◌, ◌≤◌, ◌≡◌, refl, ◌∙◌, inl, inr, true, false, arith, some, List, [], ◌∷◌, length,
  length-append, set, get_elem?, get_elem?-set_self, Bool-cases,
}
use version_aware_lazy_segtr.Prelude.Result.{ok, Result-cases}
use version_aware_lazy_segtr.Prelude.Run
use version_aware_lazy_segtr.Prelude.Run.{Run, Ends, done, lift, pure, and_then, returns, raises}
use version_aware_lazy_segtr.Prelude.Vector.{assigned-ok}
use version_aware_lazy_segtr.Size.{midpoint}
use version_aware_lazy_segtr.Arena.{Extends, Extends-refl, Extends-trans, append, append-Ends}
use version_aware_lazy_segtr.Policy.Interface.{Policy}
use version_aware_lazy_segtr.PolicyTrees.PathCopying.{
  Node, node, Arena, push_into, descend, Descent, descent,
}
use version_aware_lazy_segtr.Frontier.Pushes.{hand_down_tag, push_tag}
use version_aware_lazy_segtr.Frontier.Pushes.Tags.{
  OnlyBelow, OnlyBelow-refl, OnlyBelow-trans, OnlyBelow-child, set-OnlyBelow, left_apart,
  right_apart, parent_kept, set_apart,
}
use version_aware_lazy_segtr.Frontier.Pushes.Mirrors.{
  Mirrors, top, top_there, Mirrors-kept, copy-Mirrors,
}

module _ {A B : Type 0} where
  -- One record more.
  pub append-Adds :
      (n : Node A B) (nodes : Arena A B)
      → Ends
          (λ j nodes'.
            Extends nodes nodes'
            × (get_elem? nodes' j ≡ some n)
            × (length nodes' ≡ length nodes + 1))
          (λ e nodes'. Extends nodes nodes')
          (append n nodes)
  unfolding append
  append-Adds n nodes =
      let (x, new) = Run.value (append-Ends {E = λ e s. ⊥} n nodes) refl in
      returns (x, new, length-append nodes (n ∷ []))

module _ {A B : Type 0} (p : Policy A B) where
  -- A copy of a record, with its tag under another one.
  pub record Copied (nodes : Arena A B) (tags : List B) (tag old : B) (c l r : ℕ) (j : ℕ)
      (nodes' : Arena A B) : Type 0 where
    pub composed : B
    pub composes : p.compose tag old ≡ ok composed
    pub grown : Extends nodes nodes'
    pub count : length nodes' ≡ length nodes + 1
    pub mirrored : Mirrors nodes' (set tags c composed) j c l r

  pub push_into-Copied :
      (tag : B) (len : ℕ) {nodes : Arena A B} {tags : List B} {i c l r : ℕ}
      → (h : Mirrors nodes tags i c l r)
      → Ends
          (Copied nodes tags tag (top h).tag c l r)
          (λ e nodes'. Extends nodes nodes')
          (push_into p i tag len nodes)
  unfolding push_into
  push_into-Copied tag len {nodes} {tags} {c} {l} {r} h =
      let old = top h in
      rw (top_there h).0 (
        Run.calculates (p.apply tag old.aggregate len) _ nodes
          (λ a. elim (Result-cases (p.compose tag old.tag)) [
            | inl (t, composes) ↦ rw composes (
                Run.mono (append-Adds (node old.left_child old.right_child a t) nodes)
                  (λ j nodes' (x, new, more). record {
                    composed = t;
                    composes = composes;
                    grown = x;
                    count = more;
                    mirrored =
                        copy-Mirrors h (node old.left_child old.right_child a t) x new refl refl;
                  })
                  (λ e s x. x))
            | inr (e, bad) ↦ rw bad (raises (Extends-refl nodes))
          ])
          (λ e. Extends-refl nodes))

  -- A tag that is handed down to a child.
  hand_down-runs :
      (i child : ℕ) (tags : List B) {tag old composed : B}
      → get_elem? tags i ≡ some tag
      → get_elem? tags child ≡ some old
      → p.compose tag old ≡ ok composed
      → hand_down_tag p i child tags ≡ done tt (set tags child composed)
  unfolding hand_down_tag
  hand_down-runs i child tags {tag} {old} {composed} at at_child composes =
      rw (at, at_child, composes, assigned-ok tags child composed old at_child) refl

  -- A node whose tag is pushed, if it is not the identity, and both its children.
  pub record IsPushed (nodes : Arena A B) (tags : List B) (c l r : ℕ) (model : Run (List B) ℕ)
      (d : Descent B) (nodes' : Arena A B) : Type 0 where
    pub pushes : ℕ
    pub tags' : List B
    pub runs : model ≡ done pushes tags'
    pub few : pushes ≤ 1
    pub grown : Extends nodes nodes'
    pub count : length nodes' ≡ length nodes + 2 * pushes
    pub only : OnlyBelow c tags tags'
    pub tag_there : get_elem? tags' c ≡ some d.retained
    pub on_left : Mirrors nodes' tags' d.left_child (2 * c + 1) l (midpoint l r)
    pub on_right : Mirrors nodes' tags' d.right_child (2 * c + 2) (midpoint l r + 1) r

  push_tag-idle :
      (c : ℕ) (tags : List B) {tag : B}
      → p.is_identity tag ≡ true
      → get_elem? tags c ≡ some tag
      → push_tag p c tags ≡ done 0 tags
  unfolding push_tag
  push_tag-idle c tags idle at = rw (at, idle) refl

  -- The writes of push_tag, once both tags are composed.
  push_tag-runs :
      (c : ℕ) (tags : List B) {tag old_left old_right t u : B}
      → p.is_identity tag ≡ false
      → get_elem? tags c ≡ some tag
      → get_elem? tags (2 * c + 1) ≡ some old_left
      → p.compose tag old_left ≡ ok t
      → get_elem? (set tags (2 * c + 1) t) (2 * c + 2) ≡ some old_right
      → p.compose tag old_right ≡ ok u
      → push_tag p c tags
        ≡ done 1 (set (set (set tags (2 * c + 1) t) (2 * c + 2) u) c p.action_identity)
  unfolding push_tag
  push_tag-runs c tags {tag} {old_left} {old_right} {t} {u} pending at at_left left at_right right =
      let tags1 = set tags (2 * c + 1) t in
      let tags2 = set tags1 (2 * c + 2) u in
      let at1 = parent_kept c (2 * c + 1) (inl refl) (set-OnlyBelow tags (2 * c + 1) t) ∙ at in
      let at2 = parent_kept c (2 * c + 2) (inr refl) (set-OnlyBelow tags1 (2 * c + 2) u) ∙ at1 in
      rw
        (
          at,
          pending,
          hand_down-runs c (2 * c + 1) tags at at_left left,
          hand_down-runs c (2 * c + 2) tags1 at1 at_right right,
          assigned-ok tags2 c p.action_identity tag at2,
        )
        refl

  -- After both children were copied with the tag of their parent.
  children-IsPushed :
      {nodes nodes1 nodes2 : Arena A B} {tags : List B} {i j c l r : ℕ} (n : Node A B) {old : B}
      → p.is_identity n.tag ≡ false
      → get_elem? tags c ≡ some n.tag
      → get_elem? tags (2 * c + 1) ≡ some old
      → (x : Copied nodes tags n.tag old (2 * c + 1) l (midpoint l r) i nodes1)
      → (b : Mirrors nodes1
          (set tags (2 * c + 1) x.composed)
          n.right_child
          (2 * c + 2)
          (midpoint l r + 1)
          r)
      → Copied nodes1
          (set tags (2 * c + 1) x.composed)
          n.tag
          (top b).tag
          (2 * c + 2)
          (midpoint l r + 1)
          r
          j
          nodes2
      → IsPushed nodes tags c l r (push_tag p c tags) (descent i j p.action_identity) nodes2
  children-IsPushed {nodes2} {tags} {c} {l} {r} n pending at at_left x b y =
      let left = 2 * c + 1 in
      let right = 2 * c + 2 in
      let i = p.action_identity in
      let tags1 = set tags left x.composed in
      let tags2 = set tags1 right y.composed in
      let only1 = set-OnlyBelow tags left x.composed in
      let only2 = set-OnlyBelow tags1 right y.composed in
      let at1 = parent_kept c left (inl refl) only1 ∙ at in
      let at2 = parent_kept c right (inr refl) only2 ∙ at1 in
      let a2 = Mirrors-kept y.grown (left_apart c only2) x.mirrored in
      let same = Extends-refl nodes2 in
      record {
        pushes = 1;
        tags' = set tags2 c i;
        runs = push_tag-runs c tags pending at at_left x.composes (top_there b).1 y.composes;
        few = omega arith;
        grown = Extends-trans x.grown y.grown;
        count = omega (arith, x.count, y.count);
        only =
            OnlyBelow-trans (OnlyBelow-child (inl refl) only1)
              (OnlyBelow-trans (OnlyBelow-child (inr refl) only2) (set-OnlyBelow tags2 c i));
        tag_there = get_elem?-set_self tags2 c i n.tag at2;
        on_left = Mirrors-kept same (set_apart tags2 c left i (inl refl)) a2;
        on_right = Mirrors-kept same (set_apart tags2 c right i (inr refl)) y.mirrored;
      }

  pub descend-IsPushed :
      {nodes : Arena A B} {tags : List B} (n : Node A B) (c l r : ℕ)
      → get_elem? tags c ≡ some n.tag
      → Mirrors nodes tags n.left_child (2 * c + 1) l (midpoint l r)
      → Mirrors nodes tags n.right_child (2 * c + 2) (midpoint l r + 1) r
      → Ends
          (IsPushed nodes tags c l r (push_tag p c tags))
          (λ e nodes'. Extends nodes nodes')
          (descend p true n l (midpoint l r) r nodes)
  unfolding descend
  descend-IsPushed {nodes} {tags} n c l r at a b = elim (Bool-cases (p.is_identity n.tag)) [
    | inl idle ↦ rw idle (
        returns (record {
          pushes = 0;
          tags' = tags;
          runs = push_tag-idle c tags idle at;
          few = omega arith;
          grown = Extends-refl nodes;
          count = omega arith;
          only = OnlyBelow-refl c tags;
          tag_there = at;
          on_left = a;
          on_right = b;
        }))
    | inr pending ↦ rw pending (
        Run.bind _ (push_into-Copied n.tag (midpoint l r - l + 1) a) (λ i nodes1 x.
          let only = set-OnlyBelow tags (2 * c + 1) x.composed in
          let b1 = Mirrors-kept x.grown (right_apart c only) b in
          Run.bind _
            (Run.mono (push_into-Copied n.tag (r - midpoint l r) b1) (λ j s y. y)
              (λ e s y. Extends-trans x.grown y))
            (λ j nodes2 y. returns (children-IsPushed n pending at (top_there a).1 x b1 y))))
  ]
