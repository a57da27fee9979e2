-- ===== src/Lazy/Build.antt =====
-- The recursion of build in src/lazy_segment_tree.cpp.
use version_aware_lazy_segtr.Prelude.{
  ℕ, zero, suc, ◌+◌, ◌-◌, ◌*◌, ◌^◌, ◌≤◌, ◌<◌, ◌≡◌, refl, sym, ◌∙◌, inl, inr, true, List, arith,
  ◌==◌, Bool-cases, eq_of_==, ne_of_==, length, length-set, get_or, set, get_elem?-get_or,
  get_elem?-set_self, get_elem?-set_ne,
}
use version_aware_lazy_segtr.Prelude.Int.{ℤ, pos, ◌+ℤ◌, +ℤ-zero}
use version_aware_lazy_segtr.Prelude.Result.{Error, IsOverflow}
use version_aware_lazy_segtr.Prelude.Run
use version_aware_lazy_segtr.Prelude.Run.{Run, Ends, returns, lift, reads, ◌>>=◌}
use version_aware_lazy_segtr.Policy.{IsLong, checked_add}
use version_aware_lazy_segtr.Policy.Arithmetic.{checked_add-Exact}
use version_aware_lazy_segtr.Size.{midpoint}
use version_aware_lazy_segtr.Segment.{of_list, AllLong, seg_sum}
use version_aware_lazy_segtr.Segment.Sum.{seg_sum-single, seg_sum-split}
use version_aware_lazy_segtr.Segment.Canonical.{Canonical, halves, total_IsLong}
use version_aware_lazy_segtr.Domain.{max_magnitude}
use version_aware_lazy_segtr.Lazy.{LazySegmentTree, zeros, build, element, store}
use version_aware_lazy_segtr.Lazy.Holds.{Entry, Holds, leaf, inner, entry, Holds-kept, KeptBelow}
use version_aware_lazy_segtr.Lazy.Below.{ChildOf}
use version_aware_lazy_segtr.Lazy.Frame.{
  Frame, Frame-trans, Frame-child, Frame-sum, left_apart, assigned-ok, child_untouched,
}
use version_aware_lazy_segtr.Lazy.Room.{HasRoom, room_here, room_below, get_elem?-zeros}

module _ (values : List ℤ) (all : AllLong values) (m : ℕ) where
  -- The tree that initialize would make of the sums.
  abbrev pub over : List ℤ → LazySegmentTree
  over sums = record {
    tree = sums;
    lazy = zeros m;
    array_size = length values;
    numeric_domain = max_magnitude values;
  }

  abbrev pub Built : (node l r : ℕ) → List ℤ → List ℤ → Type 0
  Built node l r sums sums' =
      (length sums' ≡ length sums)
      × Frame node (over sums) (over sums')
      × Holds (over sums') node (of_list values) l r
      × Canonical (of_list values) l r

  abbrev pub Broken : (l r : ℕ) → Error → Type 0
  Broken l r e = IsOverflow e × (¬ Canonical (of_list values) l r)

  abbrev Builds : (node l r : ℕ) → List ℤ → Run (List ℤ) (Unit {0}) → Type 0
  Builds node l r sums run =
      Ends (λ u sums'. Built node l r sums sums') (λ e sums'. Broken l r e) run

  -- The entries of a node whose sum was stored.
  stored-Entry :
      (sums : List ℤ) (node l r : ℕ) (s : ℤ)
      → length sums ≡ m
      → node < m
      → s ≡ seg_sum (of_list values) l r
      → IsLong s
      → Entry (over (set sums node s)) node s (pos 0) (of_list values) l r
  stored-Entry sums node l r s size lt es hs = record {
    sum_there =
        get_elem?-set_self sums node s (get_or sums node (pos 0))
          (get_elem?-get_or sums node (pos 0) (omega arith));
    tag_there = get_elem?-zeros m node lt;
    sum_exact = es;
    sum_long = hs;
    tag_long = omega arith;
  }

  leaf-Builds :
      (sums : List ℤ) (node l r : ℕ)
      → length sums ≡ m
      → node < m
      → l ≡ r
      → r < length values
      → Builds node l r sums (store node (of_list values l) sums)
  leaf-Builds sums node l r size lt e inside =
      let s = of_list values l in
      let single : seg_sum (of_list values) l r ≡ s =
        rw (← e) (seg_sum-single (of_list values) l) in
      let long : IsLong s = all l (omega arith) in
      rw
        (assigned-ok sums node s (get_or sums node (pos 0))
          (get_elem?-get_or sums node (pos 0) (omega arith)))
        (returns (
          length-set sums node s,
          Frame-sum node s (over sums),
          leaf e (stored-Entry sums node l r s size lt (sym single) long),
          Canonical.leaf e (rw single long),
        ))

  -- The sum of two children is stored in their parent.
  join-Builds :
      (sums : List ℤ) (node l r : ℕ)
      → length sums ≡ m
      → node < m
      → l < r
      → Holds (over sums) (2 * node + 1) (of_list values) l (midpoint l r)
      → Holds (over sums) (2 * node + 2) (of_list values) (midpoint l r + 1) r
      → Canonical (of_list values) l (midpoint l r)
      → Canonical (of_list values) (midpoint l r + 1) r
      → Builds node l r sums (
          (do
            left ← reads (λ sums. element sums (2 * node + 1))
            right ← reads (λ sums. element sums (2 * node + 2))
            sum ← lift (checked_add left right)
            store node sum)
            sums)
  join-Builds sums node l r size lt below a b ca cb =
      let f = of_list values in
      let (x, _, ex) = entry a in
      let (y, _, ey) = entry b in
      let whole : x +ℤ y ≡ seg_sum f l r =
        rw
          (
            seg_sum-split f l (midpoint l r) r (omega arith) (omega arith),
            ex.sum_exact,
            ey.sum_exact,
          )
          refl in
      rw (ex.sum_there, ey.sum_there)
        (Run.bind_lift _ sums (checked_add-Exact x y ex.sum_long ey.sum_long)
          (λ s (es, hs).
            let exact = es ∙ whole in
            let sums' = set sums node s in
            rw
              (assigned-ok sums node s (get_or sums node (pos 0))
                (get_elem?-get_or sums node (pos 0) (omega arith)))
              (returns (
                length-set sums node s,
                Frame-sum node s (over sums),
                inner below (stored-Entry sums node l r s size lt exact (rw es hs))
                    (Holds-kept (over sums) (over sums')
                      (set_apart sums node (2 * node + 1) s (inl refl)) a)
                    (Holds-kept (over sums) (over sums')
                      (set_apart sums node (2 * node + 2) s (inr refl)) b)
                    (λ k p q. sym (+ℤ-zero (f k))),
                Canonical.inner below ca cb (rw whole at hs),
              )))
          (λ e (is, out). (is, λ c. out (rw whole (total_IsLong c)))))
    where
      set_apart :
          (sums : List ℤ) (node c : ℕ) (s : ℤ)
          → ChildOf node c
          → KeptBelow (over sums) (over (set sums node s)) c
      set_apart sums node c s child =
          child_untouched node c (over sums) (over (set sums node s)) child
            (λ k off. (get_elem?-set_ne sums node k s off, refl))

  pub build-Builds :
      (fuel k : ℕ) (sums : List ℤ) (node l r : ℕ)
      → length sums ≡ m
      → HasRoom m node k l r
      → l ≤ r
      → r < length values
      → r - l < fuel
      → Builds node l r sums (build fuel values node l r sums)
  unfolding build
  build-Builds zero k sums node l r size room le inside enough = absurd (omega arith)
  build-Builds (suc fuel) zero sums node l r size (fits, room) le inside enough =
      let one : 2 ^ 0 ≡ 1 = refl in
      let same : (l == r) ≡ true = ground arith in
      rw (same, get_elem?-get_or values l (pos 0) (omega arith))
        (leaf-Builds sums node l r size (room_here m node 0 l r (fits, room)) (omega arith) inside)
  build-Builds (suc fuel) (suc k) sums node l r size room le inside enough =
      let lt = room_here m node (suc k) l r room in
      elim (Bool-cases (l == r)) [
        | inl same ↦
            rw (same, get_elem?-get_or values l (pos 0) (omega arith))
              (leaf-Builds sums node l r size lt (eq_of_== l r same) inside)
        | inr more ↦ rw more (
            let mid = midpoint l r in
            let below : l < r = ground (arith, ne_of_== l r more) in
            let (room_left, room_right) = room_below m node k l r below room in
            Run.bind _
              (Run.mono
                (build-Builds fuel k sums (2 * node + 1) l mid size room_left (omega arith)
                  (omega arith) (omega arith))
                (λ u s h. h) (λ e s (is, out). (is, λ c. out (halves c below).0)))
              (λ u sums1 (size1, frame1, ha, ca).
                Run.bind _
                  (Run.mono
                    (build-Builds fuel k sums1 (2 * node + 2) (mid + 1) r (size1 ∙ size) room_right
                      (omega arith) (omega arith) (omega arith))
                    (λ u s h. h) (λ e s (is, out). (is, λ c. out (halves c below).1)))
                  (λ u sums2 (size2, frame2, hb, cb).
                    Run.mono
                      (join-Builds sums2 node l r (size2 ∙ size1 ∙ size) lt below
                        (Holds-kept (over sums1) (over sums2) (left_apart node frame2) ha) hb ca cb)
                      (λ u s (size3, frame3, h, c). (
                        size3 ∙ size2 ∙ size1,
                        Frame-trans (Frame-child (inl refl) frame1)
                            (Frame-trans (Frame-child (inr refl) frame2) frame3),
                        h,
                        c,
                      ))
                      (λ e s h. h))))
      ]
