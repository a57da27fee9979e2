-- ===== src/Frontier/Boundary.antt =====
-- The nodes that contain two indices, a path from the root, with a number for each of them.
use version_aware_lazy_segtr.Prelude.{
  ℕ, zero, suc, ◌+◌, ◌-◌, ◌≤◌, ◌<◌, ◌≡◌, refl, inl, inr, true, false, arith, Bool-cases, covers,
  if◌then◌else◌,
}
use version_aware_lazy_segtr.Size.{midpoint}

unfoldable path_within : (ℕ → ℕ → ℕ) → ℕ → (a b l r : ℕ) → ℕ
path_within w zero a b l r = 0
path_within w (suc fuel) a b l r =
    let left = path_within w fuel a b l (midpoint l r) in
    let right = path_within w fuel a b (midpoint l r + 1) r in
    if covers l r a b then w l r + left + right else 0

path_enough :
    (w : ℕ → ℕ → ℕ) (f g a b l r : ℕ)
    → a < b
    → l ≤ r
    → r - l < f
    → r - l < g
    → path_within w f a b l r ≡ path_within w g a b l r
unfolding path_within
path_enough w zero g a b l r apart le p q = absurd (omega arith)
path_enough w (suc f) zero a b l r apart le p q = absurd (omega arith)
path_enough w (suc f) (suc g) a b l r apart le p q = elim (Bool-cases (covers l r a b)) [
  | inr out ↦ rw out refl
  | inl on ↦
      let m = midpoint l r in
      let below : l < r = ground arith in
      let on_left = path_enough w f g a b l m apart (omega arith) (omega arith) (omega arith) in
      let on_right =
        path_enough w f g a b (m + 1) r apart (omega arith) (omega arith) (omega arith) in
      rw (on, on_left, on_right) refl
]

module _ (w : ℕ → ℕ → ℕ) (a b : ℕ) (apart : a < b) where
  -- The numbers of the nodes below a segment that contain both indices, summed.
  unfoldable pub along_path : ℕ → ℕ → ℕ
  unfolding path_within
  along_path l r = path_within w (suc (r - l)) a b l r

  pub along_path-off : (l r : ℕ) → covers l r a b ≡ false → along_path l r ≡ 0
  unfolding along_path
  along_path-off l r out = rw out refl

  pub along_path-on :
      (l r : ℕ)
      → l < r
      → covers l r a b ≡ true
      → along_path l r ≡ w l r + along_path l (midpoint l r) + along_path (midpoint l r + 1) r
  unfolding along_path
  along_path-on l r lt on =
      let m = midpoint l r in
      let on_left =
        path_enough w (r - l) (suc (m - l)) a b l m apart (omega arith) (omega arith)
          (omega arith) in
      let on_right =
        path_enough w (r - l) (suc (r - (m + 1))) a b (m + 1) r apart (omega arith) (omega arith)
          (omega arith) in
      rw (on, on_left, on_right) refl

  -- Whether the node is on the path or not.
  pub along_path-splits :
      (l r : ℕ)
      → l < r
      → along_path l r
        ≡ (if covers l r a b then w l r else 0)
          + along_path l (midpoint l r)
          + along_path (midpoint l r + 1) r
  along_path-splits l r lt =
      let m = midpoint l r in
      elim (Bool-cases (covers l r a b)) [
        | inl on ↦ rw on (along_path-on l r lt on)
        | inr out ↦
            let here = along_path-off l r out in
            let on_left = along_path-off l m (ground arith) in
            let on_right = along_path-off (m + 1) r (ground arith) in rw out (omega arith)
      ]
