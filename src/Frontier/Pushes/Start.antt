-- ===== src/Frontier/Pushes/Start.antt =====
-- initialize of PathCopyingActionTree and the constructor of PushCountingModel: every tag is the
-- identity on both sides.
use version_aware_lazy_segtr.Prelude.{
  ℕ, zero, suc, ◌+◌, ◌-◌, ◌*◌, ◌^◌, ◌≤◌, ◌<◌, ◌≡◌, refl, sym, inl, inr, true, false, arith, List,
  [], ◌∷◌, length, get_elem?, Bool-cases, ◌==◌, eq_of_==, ne_of_==,
}
use version_aware_lazy_segtr.Prelude.Result
use version_aware_lazy_segtr.Prelude.Result.{Result, ok, err, or_fault, Result-cases}
use version_aware_lazy_segtr.Prelude.Run
use version_aware_lazy_segtr.Prelude.Run.{Run, Ends, and_then, lift, pure, returns, raises, ◌>>=◌}
use version_aware_lazy_segtr.Prelude.Vector.{copies, get_elem?-copies}
use version_aware_lazy_segtr.Size.{midpoint, size_max, lazy_storage_count, canonical_node_count}
use version_aware_lazy_segtr.Size.Exact.{checked_size_multiply-exact}
use version_aware_lazy_segtr.Lazy.Room.{HasRoom, room_here, room_below, root_room}
use version_aware_lazy_segtr.Arena.{Extends, Extends-refl, Extends-trans, no_node, append}
use version_aware_lazy_segtr.Policy.Interface.{Policy}
use version_aware_lazy_segtr.PolicyTrees.PathCopying.{
  node, Arena, PathCopyingActionTree, build, build_replacement, install, initialize, node_count,
}
use version_aware_lazy_segtr.Frontier.Pushes.{PushCountingModel, validate_size, push_counting_model}
use version_aware_lazy_segtr.Frontier.Pushes.Mirrors.{
  Mirrors, leaf, inner, top, top_there, Mirrors-kept,
}
use version_aware_lazy_segtr.Frontier.Pushes.Push.{append-Adds}
use version_aware_lazy_segtr.Frontier.Pushes.Child.{Grew}
use version_aware_lazy_segtr.Frontier.Pushes.Appends.{SameTags}

module _ {A B : Type 0} (p : Policy A B) (m : ℕ) where
  abbrev tags : List B
  tags = copies m p.action_identity

module _ {A B : Type 0} (p : Policy A B) (values : List A) (m : ℕ) where
  leaf-Mirrors :
      (nodes : Arena A B) (k c l r : ℕ)
      → l ≡ r
      → HasRoom m c k l r
      → Ends
          (λ j nodes'.
            Extends nodes nodes'
            × (length nodes' ≡ length nodes + (2 * (r - l) + 1))
            × Mirrors nodes' (tags p m) j c l r)
          (Grew nodes)
          ((do
            value ← lift (or_fault (get_elem? values l))
            append (node no_node no_node value p.action_identity))
            nodes)
  leaf-Mirrors nodes k c l r single room =
      Run.calculates (or_fault (get_elem? values l)) _ nodes
        (λ value.
          Run.mono (append-Adds (node no_node no_node value p.action_identity) nodes)
            (λ j nodes' (x, new, more). (
              x,
              omega arith,
              leaf new (get_elem?-copies m c p.action_identity (room_here m c k l r room)) single,
            ))
            (λ e s x. x))
        (λ e. Extends-refl nodes)

  build-Mirrors :
      (fuel : ℕ) (nodes : Arena A B) (k c l r : ℕ)
      → l ≤ r
      → HasRoom m c k l r
      → Ends
          (λ j nodes'.
            Extends nodes nodes'
            × (length nodes' ≡ length nodes + (2 * (r - l) + 1))
            × Mirrors nodes' (tags p m) j c l r)
          (Grew nodes)
          (build p fuel values l r nodes)
  unfolding build
  build-Mirrors zero nodes k c l r le room = raises (Extends-refl nodes)
  build-Mirrors (suc fuel) nodes zero c l r le room =
      let one : 2 ^ 0 ≡ 1 = refl in
      let single : (l == r) ≡ true = ground (arith, room.0, one) in
      rw single (leaf-Mirrors nodes zero c l r (eq_of_== l r single) room)
  build-Mirrors (suc fuel) nodes (suc k) c l r le room = elim (Bool-cases (l == r)) [
    | inl single ↦ rw single (leaf-Mirrors nodes (suc k) c l r (eq_of_== l r single) room)
    | inr more ↦
        let lt : l < r = ground (arith, ne_of_== l r more) in
        let (room_left, room_right) = room_below m c k l r lt room in
        rw more (
          Run.bind _
            (build-Mirrors fuel nodes k (2 * c + 1) l (midpoint l r) (omega arith) room_left)
            (λ i nodes1 (x, count_left, a).
              Run.bind _
                (Run.mono
                  (build-Mirrors fuel nodes1 k (2 * c + 2) (midpoint l r + 1) r (omega arith)
                    room_right)
                  (λ j s y. y) (λ e s y. Extends-trans x y))
                (λ j nodes2 (y, count_right, b).
                  let a2 = Mirrors-kept y (λ k below. refl) a in
                  let grown = Extends-trans x y in
                  rw ((top_there a2).0, (top_there b).0)
                    (Run.calculates (p.combine (top a2).aggregate (top b).aggregate) _ nodes2
                      (λ aggregate.
                        Run.mono (append-Adds (node i j aggregate p.action_identity) nodes2)
                          (λ o nodes3 (z, new, one). (
                            Extends-trans grown z,
                            omega (arith, count_left, count_right, one),
                            inner new
                                (get_elem?-copies m c p.action_identity
                                  (room_here m c (suc k) l r room))
                                lt (Mirrors-kept z (λ k below. refl) a2)
                                (Mirrors-kept z (λ k below. refl) b),
                          ))
                          (λ e s z. Extends-trans grown z))
                      (λ e. grown)))))
  ]

module _ {A B : Type 0} (p : Policy A B) where
  -- The constructor's storage.
  model-tags :
      (n : ℕ) (model : PushCountingModel B)
      → push_counting_model p n ≡ ok model
      → (0 < n) × (4 * n ≤ size_max) × (model ≡ record { array_size = n; tags = tags p (4 * n) })
  unfolding push_counting_model validate_size lazy_storage_count
  model-tags n model made = elim (Bool-cases (n == 0)) [
    | inl nothing ↦ let thrown = rw nothing at made in cc
    | inr some_there ↦ elim (Result-cases (lazy_storage_count n)) [
      | inr (e, bad) ↦ let thrown = rw (some_there, bad) at made in cc
      | inl (m, fits) ↦
          let (e, small) = Result.value (checked_size_multiply-exact 4 n) fits in
          let run = rw (some_there, fits, e) at made in
          (ground arith, omega arith, sym (Result.ok_injective run))
    ]
  ]

  install-SameTags :
      (values : List A) (tree : PathCopyingActionTree A B) {run : Run (Arena A B) ℕ}
      → Ends
          (λ j nodes'.
            Extends [] nodes'
            × (length nodes' ≡ 0 + (2 * (length values - 1 - 0) + 1))
            × Mirrors nodes' (tags p (4 * length values)) j 0 0 (length values - 1))
          (Grew [])
          run
      → Ends
          (λ u tree'.
            (node_count p tree' ≡ 2 * (length values - 1) + 1)
            × (tree'.array_size ≡ length values)
            × SameTags tree'
                (record { array_size = length values; tags = tags p (4 * length values) }))
          (λ e tree'. tree' ≡ tree)
          (install p values tree (and_then run (λ root. pure (root ∷ []))))
  unfolding install
  install-SameTags values tree (returns {a = root} (x, count, h)) =
      returns (
        omega arith,
        refl,
        record { same_size = refl; root = root; root_there = refl; mirrored = h },
      )
  install-SameTags values tree (raises x) = raises refl

  pub initialize-SameTags :
      (values : List A) (tree : PathCopyingActionTree A B) (model : PushCountingModel B)
      → push_counting_model p (length values) ≡ ok model
      → Ends
          (λ u tree'.
            (node_count p tree' ≡ 2 * length values - 1)
            × SameTags tree' model
            × (tree'.array_size ≤ size_max))
          (λ e tree'. tree' ≡ tree)
          (initialize p values tree)
  unfolding initialize build_replacement
  initialize-SameTags values tree model made =
      let n = length values in
      let (some_element, small, e) = model-tags n model made in
      let some_value : (n == 0) ≡ false = ground arith in
      let (k, room) = root_room n some_element (omega arith) in
      elim (Result-cases (canonical_node_count n)) [
        | inr (e, bad) ↦ rw (bad, some_value) (raises refl)
        | inl (reserved, fits) ↦
            rw (fits, some_value, e)
              (Run.mono
                (install-SameTags values tree
                  (build-Mirrors p values (4 * n) n [] k 0 0 (n - 1) (omega arith) room))
                (λ u tree' (count, size, same). (omega arith, same, omega arith))
                (λ e tree' unchanged. unchanged))
      ]
