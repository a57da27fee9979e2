-- ===== src/Persistent/Growth/Frontier.antt =====
-- The nodes that update of src/persistent_lazy_segment_tree.cpp appends, and the frontier.
use version_aware_lazy_segtr.Prelude.{
  ℕ, zero, suc, ◌+◌, ◌≤◌, ◌<◌, ◌≡◌, inl, inr, false, arith, covers, Bool-cases,
}
use version_aware_lazy_segtr.Prelude.Int.{ℤ}
use version_aware_lazy_segtr.Prelude.Run
use version_aware_lazy_segtr.Prelude.Run.{raises}
use version_aware_lazy_segtr.Size.{midpoint}
use version_aware_lazy_segtr.Arena.{Extends-refl}
use version_aware_lazy_segtr.Persistent.Write.{Arena, update}
use version_aware_lazy_segtr.Persistent.Growth.{Adds, covered-Adds, split-Adds}
use version_aware_lazy_segtr.Frontier.Count.{
  frontier, misses, count_at-misses, count_at-covers, count_at-splits,
}

module _ (ql qr : ℕ) (v : ℤ) where
  pub update-Adds :
      (fuel i l r : ℕ) (nodes : Arena)
      → l ≤ r
      → misses ql qr l r ≡ false
      → Adds nodes (frontier ql qr l r) (update fuel i l r ql qr v nodes)
  unfolding update
  update-Adds zero i l r nodes le met = raises (Extends-refl nodes)
  update-Adds (suc fuel) i l r nodes le met = elim (Bool-cases (covers ql qr l r)) [
    | inl full ↦
        let one = count_at-covers 1 1 ql qr l r met full in
        rw one (covered-Adds ql qr v (suc fuel) i l r nodes full)
    | inr partial ↦
        let m = midpoint l r in
        let below : l < r = ground arith in
        let a = frontier ql qr l m in
        let b = frontier ql qr (m + 1) r in
        let split = count_at-splits 1 1 ql qr l r le met partial in
        Run.mono
          (split-Adds ql qr v fuel i l r a b nodes partial
            (λ go c s. update-Adds fuel c l m s (omega arith) (ground arith))
            (λ go c s. update-Adds fuel c (m + 1) r s (omega arith) (ground arith))
            (λ off. count_at-misses 1 1 ql qr l m (ground arith))
            (λ off. count_at-misses 1 1 ql qr (m + 1) r (ground arith)))
          (λ i s (ext, h). (ext, omega arith)) (λ e s x. x)
  ]
