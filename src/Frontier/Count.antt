-- ===== src/Frontier/Count.antt =====
-- The frontier of a range under a node, as plain numbers: the nodes that the range meets without
-- covering them, and the topmost nodes that it covers.
use version_aware_lazy_segtr.Prelude.{
  ℕ, zero, suc, ◌+◌, ◌-◌, ◌||◌, ◌≤◌, ◌<◌, ◌≡◌, refl, inl, inr, Bool, true, false, arith, ltb,
  covers, Bool-cases, if◌then◌else◌,
}
use version_aware_lazy_segtr.Size.{midpoint}

abbrev pub misses : ℕ → ℕ → ℕ → ℕ → Bool
misses ql qr l r = ltb r ql || ltb qr l

-- A number for each way in which a range lies to a segment, on enough fuel.
unfoldable pub count_within : ℕ → (covered partial ql qr l r : ℕ) → ℕ
count_within zero covered partial ql qr l r = 0
count_within (suc fuel) covered partial ql qr l r =
    let left = count_within fuel covered partial ql qr l (midpoint l r) in
    let right = count_within fuel covered partial ql qr (midpoint l r + 1) r in
    if misses ql qr l r then 0 else if covers ql qr l r then covered else partial + left + right

fuel_enough :
    (f g c p ql qr l r : ℕ)
    → l ≤ r
    → r - l < f
    → r - l < g
    → count_within f c p ql qr l r ≡ count_within g c p ql qr l r
unfolding count_within
fuel_enough zero g c p ql qr l r le a b = absurd (omega arith)
fuel_enough (suc f) zero c p ql qr l r le a b = absurd (omega arith)
fuel_enough (suc f) (suc g) c p ql qr l r le a b = elim (Bool-cases (misses ql qr l r)) [
  | inl missed ↦ rw missed refl
  | inr met ↦ elim (Bool-cases (covers ql qr l r)) [
    | inl full ↦ rw (met, full) refl
    | inr partial ↦
        let m = midpoint l r in
        let below : l < r = ground arith in
        let on_left = fuel_enough f g c p ql qr l m (omega arith) (omega arith) (omega arith) in
        let on_right =
          fuel_enough f g c p ql qr (m + 1) r (omega arith) (omega arith) (omega arith) in
        rw (met, partial, on_left, on_right) refl
  ]
]

module _ (c p ql qr : ℕ) where
  -- As much fuel as the segment has elements.
  unfoldable pub count_at : ℕ → ℕ → ℕ
  unfolding count_within
  count_at l r = count_within (suc (r - l)) c p ql qr l r

  pub count_at-misses : (l r : ℕ) → misses ql qr l r ≡ true → count_at l r ≡ 0
  unfolding count_at
  count_at-misses l r missed = rw missed refl

  pub count_at-covers :
      (l r : ℕ) → misses ql qr l r ≡ false → covers ql qr l r ≡ true → count_at l r ≡ c
  unfolding count_at
  count_at-covers l r met full = rw (met, full) refl

  pub count_at-splits :
      (l r : ℕ)
      → l ≤ r
      → misses ql qr l r ≡ false
      → covers ql qr l r ≡ false
      → count_at l r ≡ p + count_at l (midpoint l r) + count_at (midpoint l r + 1) r
  unfolding count_at
  count_at-splits l r le met partial =
      let m = midpoint l r in
      let below : l < r = ground arith in
      let on_left =
        fuel_enough (r - l) (suc (m - l)) c p ql qr l m (omega arith) (omega arith) (omega arith) in
      let on_right =
        fuel_enough (r - l) (suc (r - (m + 1))) c p ql qr (m + 1) r (omega arith) (omega arith)
          (omega arith) in
      rw (met, partial, on_left, on_right) refl

-- The nodes that are met and not covered, the topmost covered ones, and both.
abbrev pub partials : ℕ → ℕ → ℕ → ℕ → ℕ
partials = count_at 0 1

abbrev pub decompositions : ℕ → ℕ → ℕ → ℕ → ℕ
decompositions = count_at 1 0

abbrev pub frontier : ℕ → ℕ → ℕ → ℕ → ℕ
frontier = count_at 1 1

module _ (ql qr : ℕ) where
  -- Induction over the nodes that a range reaches.
  pub by_nodes :
      {P : ℕ → ℕ → Type 0}
      → ((l r : ℕ) → l ≤ r → misses ql qr l r ≡ true → P l r)
      → ((l r : ℕ) → l ≤ r → misses ql qr l r ≡ false → covers ql qr l r ≡ true → P l r)
      → ((l r : ℕ)
          → l < r
          → misses ql qr l r ≡ false
          → covers ql qr l r ≡ false
          → P l (midpoint l r)
          → P (midpoint l r + 1) r
          → P l r)
      → (l r : ℕ) → l ≤ r
      → P l r
  by_nodes {P} missed covered split l r le = go (suc (r - l)) l r le (omega arith)
    where
      go : (fuel l r : ℕ) → l ≤ r → r - l < fuel → P l r
      go zero l r le enough = absurd (omega arith)
      go (suc fuel) l r le enough = elim (Bool-cases (misses ql qr l r)) [
        | inl out ↦ missed l r le out
        | inr met ↦ elim (Bool-cases (covers ql qr l r)) [
          | inl full ↦ covered l r le met full
          | inr partial ↦
              let below : l < r = ground arith in
              split l r below met partial (go fuel l (midpoint l r) (omega arith) (omega arith))
                (go fuel (midpoint l r + 1) r (omega arith) (omega arith))
        ]
      ]

  pub frontier-add :
      (l r : ℕ) → l ≤ r → frontier ql qr l r ≡ partials ql qr l r + decompositions ql qr l r
  frontier-add =
      by_nodes
        (λ l r le out.
          rw
            (
              count_at-misses 1 1 ql qr l r out,
              count_at-misses 0 1 ql qr l r out,
              count_at-misses 1 0 ql qr l r out,
            )
            refl)
        (λ l r le met full.
          rw
            (
              count_at-covers 1 1 ql qr l r met full,
              count_at-covers 0 1 ql qr l r met full,
              count_at-covers 1 0 ql qr l r met full,
            )
            refl)
        (λ l r lt met partial a b.
          let both = count_at-splits 1 1 ql qr l r (omega arith) met partial in
          let ps = count_at-splits 0 1 ql qr l r (omega arith) met partial in
          let ds = count_at-splits 1 0 ql qr l r (omega arith) met partial in omega arith)

  -- Every topmost covered node has an element of the range to itself.
  pub decompositions-overlap :
      (l r : ℕ)
      → l ≤ r
      → decompositions ql qr l r ≤ (if ltb r qr then r else qr) + 1 - (if ltb l ql then ql else l)
  decompositions-overlap =
      by_nodes (λ l r le out. let none_here = count_at-misses 1 0 ql qr l r out in ground arith)
        (λ l r le met full. let one_here = count_at-covers 1 0 ql qr l r met full in ground arith)
        (λ l r lt met partial a b.
          let both = count_at-splits 1 0 ql qr l r (omega arith) met partial in
          let m = midpoint l r in
          let between : (l ≤ m) × (m < r) = (omega arith, omega arith) in ground arith)
