-- ===== src/Persistent/Quiet/Update.antt =====
-- update of the persistent tree over a small version: it returns.
use version_aware_lazy_segtr.Prelude.{
  ℕ, zero, suc, ◌+◌, ◌-◌, ◌*◌, ◌≤◌, ◌<◌, ◌≡◌, refl, inl, inr, true, false, arith, Bool, some, leb,
  ltb, covers, if◌then◌else◌, Bool-cases, covers→le, leb→le, leb→lt, ltb→lt, ltb→le, get_elem?,
}
use native.Mathlib.Nat.{mul-le-mul_right}
use version_aware_lazy_segtr.Prelude.Int.{ℤ, pos, ◌+ℤ◌, ◌*ℤ◌, int_laws}
use version_aware_lazy_segtr.Prelude.Result.{ok}
use version_aware_lazy_segtr.Prelude.Run
use version_aware_lazy_segtr.Prelude.Run.{Action, Run, Ends, returns, raises, pure, lift, ◌>>=◌}
use version_aware_lazy_segtr.Policy.{long_max, checked_add}
use version_aware_lazy_segtr.Policy.SumAdd.{apply}
use version_aware_lazy_segtr.Size.{midpoint, inclusive_length}
use version_aware_lazy_segtr.Segment.{Values, add_range, plus}
use version_aware_lazy_segtr.Segment.Sum.{
  Agree, Agree-sym, seg_sum-add_range, add_range-plus, Agree-add_range_left, Agree-add_range_right,
}
use version_aware_lazy_segtr.Domain.{magnitude}
use version_aware_lazy_segtr.Domain.Envelope.{magnitude-+ℤ}
use version_aware_lazy_segtr.Arena.{Extends, Extends-refl, Extends-trans, append, append-Ends}
use version_aware_lazy_segtr.Persistent.Write.{node, Arena, update}
use version_aware_lazy_segtr.Persistent.Step.{parent, sum_of_children}
use version_aware_lazy_segtr.Persistent.Quiet.{checked_add-small, apply-small}
use version_aware_lazy_segtr.Persistent.Quiet.Calm.{
  Bounded, IsSmall, Calm, leaf, inner, top, seg_sum-small, Calm-mono, Calm-congr, part_small,
}

-- A run that returns.
abbrev pub Returns : {S A : Type 0} → (A → S → Type 0) → Run S A → Type 0
Returns P run = Ends P (λ e s. ⊥) run

inclusive_length-small :
    (l r n : ℕ) → l ≤ r → r < n → n ≤ long_max → inclusive_length l r ≡ ok (r + 1 - l)
unfolding inclusive_length
inclusive_length-small l r n le inside sized = ground arith

module _ (n w t b : ℕ) (sized : n ≤ long_max) (room : n * (w + b + t) ≤ long_max) (v : ℤ)
    (small_v : magnitude v ≤ b) (ql qr : ℕ) where
  -- A new node that is small after the update.
  abbrev pub Grows : Arena → Values → ℕ → ℕ → ℕ → Arena → Type 0
  Grows nodes f l r i nodes' = Extends nodes nodes' × Calm nodes' (w + b) (t + b) i f l r

  pub add_range-Bounded :
      (f : Values) (l r : ℕ) → Bounded f w l r → Bounded (add_range f ql qr v) (w + b) l r
  add_range-Bounded f l r small k p q =
      let sum = magnitude-+ℤ (f k) v in let here = small k p q in ground arith

  -- What a segment has room for.
  segment_room : (l r : ℕ) → r < n → (r + 1 - l) * w + (r + 1 - l) * b + (r + 1 - l) * t ≤ long_max
  segment_room l r inside = omega (arith, part_small n (w + b + t) l r inside room)

  element_room : 0 < n → w + b + t ≤ long_max
  element_room some_element =
      let one = mul-le-mul_right {m = 1} {n = n} (w + b + t) (omega arith) in omega arith

  -- The node of a covered segment after the update: its children stay.
  covered-Calm :
      {nodes nodes' : Arena} {i j l r : ℕ} {f : Values} (h : Calm nodes w t i f l r) (s u : ℤ)
      → Extends nodes nodes'
      → get_elem? nodes' j ≡ some (node (top h).0.left_child (top h).0.right_child s u)
      → (ql ≤ l) × (r ≤ qr)
      → u ≡ (top h).0.lazy +ℤ v
      → IsSmall
          (node (top h).0.left_child (top h).0.right_child s u)
          (w + b)
          (t + b)
          (add_range f ql qr v)
          l
          r
      → Calm nodes' (w + b) (t + b) j (add_range f ql qr v) l r
  covered-Calm (leaf at e x) s u ext new covered tag small = leaf new e small
  covered-Calm (inner {l} {r} {f} {g} {n = m} at lt a c same x) s u ext new (p, q) tag small =
      inner new lt (Calm-mono ext (omega arith) (omega arith) a)
        (Calm-mono ext (omega arith) (omega arith) c)
        (λ k y z.
          let on : covers ql qr k k ≡ true = ground arith in
          let before = same k y z in rw (on, tag, before) (omega int_laws))
        small

  covered-Grows :
      {nodes : Arena} {i l r : ℕ} {f : Values} (h : Calm nodes w t i f l r)
      → l ≤ r
      → r < n
      → (ql ≤ l) × (r ≤ qr)
      → Returns (Grows nodes (add_range f ql qr v) l r) (
          (do
            sum ← lift (apply v (top h).0.sum (r + 1 - l))
            lazy ← lift (checked_add (top h).0.lazy v)
            append (node (top h).0.left_child (top h).0.right_child sum lazy))
            nodes)
  covered-Grows {nodes} {i} {l} {r} {f} h le inside (p, q) =
      let (m, at, x) = top h in
      let len = r + 1 - l in
      let space = segment_room l r inside in
      let one = element_room (omega arith) in
      let sum_small = seg_sum-small f w l r x.values_small in
      let product = mul-le-mul_right {m = magnitude v} {n = b} len small_v in
      let fits = apply-small v m.sum len (omega arith) (omega arith) (rw x.exact (omega arith)) in
      let fits_tag = checked_add-small m.lazy v (omega (arith, x.tag_small)) in
      let sum = m.sum +ℤ v *ℤ pos len in
      let tag = m.lazy +ℤ v in
      rw (fits, fits_tag)
        (Run.mono (append-Ends (node m.left_child m.right_child sum tag) nodes)
          (λ j nodes' (ext, new). (
            ext,
            covered-Calm h sum tag ext new (p, q) refl
                (record {
                  exact = rw (seg_sum-add_range f ql qr v l r p q, x.exact) refl;
                  values_small = add_range-Bounded f l r x.values_small;
                  tag_small = omega (arith, magnitude-+ℤ m.lazy v, x.tag_small);
                }),
          ))
          (λ e s none_such. none_such))

  -- The new node over both children.
  parent-Grows :
      {nodes : Arena} {i j l r : ℕ} (f g : Values) (tag : ℤ)
      → l < r
      → r < n
      → Calm nodes (w + b) (t + b) i g l (midpoint l r)
      → Calm nodes (w + b) (t + b) j g (midpoint l r + 1) r
      → Agree f (plus g tag) l r
      → Bounded f (w + b) l r
      → magnitude tag ≤ t
      → Returns (Grows nodes f l r) (parent i j (r + 1 - l) tag nodes)
  parent-Grows {nodes} {i} {j} {l} {r} f g tag lt inside ha hc same values tag_small =
      let m = midpoint l r in
      let (x, at_a, small_a) = top ha in
      let (y, at_c, small_c) = top hc in
      let len = r + 1 - l in
      let space = segment_room l r inside in
      let one = element_room (omega arith) in
      let on_left = seg_sum-small g (w + b) l m small_a.values_small in
      let on_right = seg_sum-small g (w + b) (m + 1) r small_c.values_small in
      let lengths : (m + 1 - l) + (r + 1 - (m + 1)) ≡ len = omega arith in
      let split : (m + 1 - l) * (w + b) + (r + 1 - (m + 1)) * (w + b) ≡ len * (w + b) =
        rw (← lengths) (omega arith) in
      let product = mul-le-mul_right {m = magnitude tag} {n = t} len tag_small in
      let both = magnitude-+ℤ x.sum y.sum in
      let left_small : magnitude x.sum ≤ (m + 1 - l) * (w + b) = rw small_a.exact on_left in
      let right_small : magnitude y.sum ≤ (r + 1 - (m + 1)) * (w + b) = rw small_c.exact on_right in
      let fits = checked_add-small x.sum y.sum (omega arith) in
      let children = x.sum +ℤ y.sum in
      let fits_sum = apply-small tag children len (omega arith) (omega arith) (omega arith) in
      let sum = children +ℤ tag *ℤ pos len in
      rw (at_a, at_c, fits, fits_sum)
        (Run.mono (append-Ends (node i j sum tag) nodes)
          (λ k nodes' (ext, new). (
            ext,
            inner new lt (Calm-mono ext (omega arith) (omega arith) ha)
                (Calm-mono ext (omega arith) (omega arith) hc) same
                (record {
                  exact =
                      rw (sum_of_children f g tag l r lt same, small_a.exact, small_c.exact) refl;
                  values_small = values;
                  tag_small = omega arith;
                }),
          ))
          (λ e s none_such. none_such))

  -- One child: visited, or shared because its values do not change.
  child-Grows :
      {nodes : Arena} {g : Values} {l r : ℕ} (visit : Bool) (c : ℕ) (go : Action Arena ℕ)
      → Calm nodes w t c g l r
      → (visit ≡ true → Returns (Grows nodes (add_range g ql qr v) l r) (go nodes))
      → (visit ≡ false → Agree g (add_range g ql qr v) l r)
      → Returns (Grows nodes (add_range g ql qr v) l r) ((if visit then go else pure c) nodes)
  child-Grows true c go h step same = step refl
  child-Grows {nodes} false c go h step same = returns (
    Extends-refl nodes,
    Calm-congr (same refl) (Calm-mono (Extends-refl nodes) (omega arith) (omega arith) h),
  )

  pub update-Grows :
      (fuel : ℕ) {nodes : Arena} {i l r : ℕ} {f : Values}
      → Calm nodes w t i f l r
      → l ≤ r
      → r < n
      → r - l < fuel
      → ql ≤ r
      → l ≤ qr
      → Returns (Grows nodes (add_range f ql qr v) l r) (update fuel i l r ql qr v nodes)
  unfolding update
  update-Grows zero h le inside enough p q = absurd (omega arith)
  update-Grows (suc fuel) {nodes} (leaf {i} {l} {r} at e x) le inside enough p q =
      let full : covers ql qr l r ≡ true = ground arith in
      rw (at, inclusive_length-small l r n le inside sized, full)
        (covered-Grows (leaf {i = i} at e x) le inside (omega arith))
  update-Grows (suc fuel) {nodes} (inner {i} {l} {r} {f} {g} {n = m} at lt a c same x) le inside
        enough p q =
      let length = inclusive_length-small l r n le inside sized in
      let mid = midpoint l r in
      elim (Bool-cases (covers ql qr l r)) [
        | inl full ↦
            rw (at, length, full)
              (covered-Grows (inner {i = i} at lt a c same x) le inside (covers→le ql qr l r full))
        | inr partial ↦
            rw (at, length, partial)
              (Run.bind _
                (child-Grows (leb ql mid) m.left_child (update fuel m.left_child l mid ql qr v) a
                  (λ go.
                    update-Grows fuel a (omega arith) (omega arith) (omega arith) (leb→le ql mid go)
                      q)
                  (λ off. Agree-sym (Agree-add_range_left g ql qr v l mid (leb→lt ql mid off))))
                (λ j nodes1 (ext1, left).
                  let c1 = Calm-mono ext1 (omega arith) (omega arith) c in
                  Run.bind _
                    (child-Grows (ltb mid qr) m.right_child
                      (update fuel m.right_child (mid + 1) r ql qr v) c1
                      (λ go.
                        let reach = ltb→lt mid qr go in
                        update-Grows fuel c1 (omega arith) inside (omega arith) p (omega arith))
                      (λ off.
                        let after = ltb→le mid qr off in
                        Agree-sym (Agree-add_range_right g ql qr v (mid + 1) r (omega arith))))
                    (λ k nodes2 (ext2, right).
                      let left2 = Calm-mono ext2 (omega arith) (omega arith) left in
                      Run.mono
                        (parent-Grows (add_range f ql qr v) (add_range g ql qr v) m.lazy lt inside
                          left2 right (add_range-plus f g m.lazy v ql qr l r same)
                          (add_range-Bounded f l r x.values_small) x.tag_small)
                        (λ o nodes3 (ext3, whole).
                          (Extends-trans ext1 (Extends-trans ext2 ext3), whole))
                        (λ e s none_such. none_such))))
      ]
