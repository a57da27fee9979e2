-- ===== src/Frontier/Run.antt =====
-- countFrontier and frontierCounts of include/valseg/frontier.hpp against the plain numbers.
use version_aware_lazy_segtr.Prelude.{
  ℕ, zero, suc, ◌+◌, ◌-◌, ◌^◌, ◌≤◌, ◌<◌, ◌≡◌, refl, ◌⊎◌, inl, inr, Bool, true, false, arith,
  Bool-cases, leb→le, leb→lt, ltb, leb, covers, if◌then◌else◌, ◌==◌,
}
use version_aware_lazy_segtr.Prelude.Result.{Result, ok, Result-cases}
use version_aware_lazy_segtr.Size.{midpoint, size_max, checked_size_add}
use version_aware_lazy_segtr.Size.Exact.{tree_height-log2}
use native.Mathlib.Nat.{pow-le-pow_right}
use version_aware_lazy_segtr.Frontier.{
  tree_height, maximum_frontier, FrontierCounts, counts_of, count_frontier, frontier_counts,
  visited, validate_frontier_range,
}
use version_aware_lazy_segtr.Frontier.Bounds.{
  frontier-two_paths, two_paths, maximum_frontier-two_paths,
}
use version_aware_lazy_segtr.Frontier.Count.{
  partials, decompositions, frontier, misses, frontier-add, count_at-misses, count_at-covers,
  count_at-splits,
}

pub checked_size_add-ok : (a b : ℕ) → a + b ≤ size_max → checked_size_add a b ≡ ok (a + b)
unfolding checked_size_add
checked_size_add-ok a b fits = ground arith

module _ (ql qr : ℕ) where
  -- The counts behind a node, if they fit.
  abbrev pub after : ℕ → ℕ → FrontierCounts → FrontierCounts
  after l r c =
      counts_of (c.partial + partials ql qr l r) (c.decomposition + decompositions ql qr l r)

  -- One child: counted, or missed by the range.
  child-after :
      (visit : Bool) (l r : ℕ) (c : FrontierCounts) (go : Result FrontierCounts)
      → (visit ≡ true → go ≡ ok (after l r c))
      → (visit ≡ false → misses ql qr l r ≡ true)
      → (if visit then go else ok c) ≡ ok (after l r c)
  child-after true l r c go step out = step refl
  child-after false l r c go step out =
      let p = count_at-misses 0 1 ql qr l r (out refl) in
      let d = count_at-misses 1 0 ql qr l r (out refl) in
      let same_p : c.partial + 0 ≡ c.partial = omega arith in
      let same_d : c.decomposition + 0 ≡ c.decomposition = omega arith in
      rw (p, d, same_p, same_d) refl

  pub count_frontier-after :
      (fuel l r : ℕ) (c : FrontierCounts)
      → l ≤ r
      → r - l < fuel
      → misses ql qr l r ≡ false
      → c.partial + partials ql qr l r ≤ size_max
      → c.decomposition + decompositions ql qr l r ≤ size_max
      → count_frontier fuel l r ql qr c ≡ ok (after l r c)
  unfolding count_frontier
  count_frontier-after zero l r c le enough met fits_p fits_d = absurd (omega arith)
  count_frontier-after (suc fuel) l r c le enough met fits_p fits_d =
      elim (Bool-cases (covers ql qr l r)) [
        | inl full ↦
            let p = count_at-covers 0 1 ql qr l r met full in
            let d = count_at-covers 1 0 ql qr l r met full in
            let step = checked_size_add-ok c.decomposition 1 (omega arith) in
            let same : c.partial + 0 ≡ c.partial = omega arith in rw (full, step, p, d, same) refl
        | inr partial ↦
            let p = count_at-splits 0 1 ql qr l r le met partial in
            let d = count_at-splits 1 0 ql qr l r le met partial in
            let step = checked_size_add-ok c.partial 1 (omega arith) in
            let m = midpoint l r in
            let below : l < r = ground arith in
            let c1 = counts_of (c.partial + 1) c.decomposition in
            let on_left =
              child-after (leb ql m) l m c1 (count_frontier fuel l m ql qr c1)
                (λ go.
                  count_frontier-after fuel l m c1 (omega arith) (omega arith) (ground arith)
                    (omega arith) (omega arith))
                (λ off. ground arith) in
            let c2 = after l m c1 in
            let on_right =
              child-after (ltb m qr) (m + 1) r c2 (count_frontier fuel (m + 1) r ql qr c2)
                (λ go.
                  count_frontier-after fuel (m + 1) r c2 (omega arith) (omega arith) (ground arith)
                    (omega arith) (omega arith))
                (λ off. ground arith) in
            let total_p : c.partial + 1 + partials ql qr l m + partials ql qr (m + 1) r
                ≡ c.partial + partials ql qr l r =
              omega arith in
            let total_d : c.decomposition
                  + decompositions ql qr l m
                  + decompositions ql qr (m + 1) r
                ≡ c.decomposition + decompositions ql qr l r =
              omega arith in
            rw (partial, step, on_left, on_right, total_p, total_d) refl
      ]

height_small : (h n : ℕ) → (h ≡ 0) ⊎ (2 ^ (h - 1) < n) → n ≤ size_max → h ≤ 64
height_small h n (inl e) small = omega arith
height_small h n (inr least) small = elim (Bool-cases (leb h 64)) [
  | inl fits ↦ leb→le h 64 fits
  | inr over ↦
      let past = leb→lt h 64 over in
      let grown : 2 ^ 64 ≤ 2 ^ (h - 1) =
        pow-le-pow_right {n = 2} (omega arith) {i = 64} {j = h - 1} (omega arith) in
      absurd (omega arith)
]

-- The numbers of the whole tree are far below the greatest std::size_t.
pub few_nodes :
    (n left right : ℕ)
    → 0 < n
    → n ≤ size_max
    → partials left right 0 (n - 1) + decompositions left right 0 (n - 1) ≤ 300
few_nodes n left right positive small =
    let all = frontier-add left right 0 (n - 1) (omega arith) in
    let bounded = frontier-two_paths left right 64 0 (n - 1) (omega arith) (omega arith) in
    omega arith

pub partials_small :
    (n left right : ℕ) → 0 < n → n ≤ size_max → partials left right 0 (n - 1) ≤ size_max
partials_small n left right positive small =
    let few = few_nodes n left right positive small in omega arith

module _ (n left right : ℕ) where
  -- On a valid range frontierCounts returns both numbers: no count overflows.
  pub frontier_counts-counts :
      left ≤ right
      → right < n
      → n ≤ size_max
      → frontier_counts n left right
        ≡ ok (counts_of (partials left right 0 (n - 1)) (decompositions left right 0 (n - 1)))
  unfolding frontier_counts validate_frontier_range
  frontier_counts-counts ordered inside small =
      let positive : (n == 0) ≡ false = ground arith in
      let forward : ltb right left ≡ false = ground arith in
      let within : leb n right ≡ false = ground arith in
      let all = frontier-add left right 0 (n - 1) (omega arith) in
      let few = few_nodes n left right (omega arith) small in
      let runs =
        count_frontier-after left right n 0 (n - 1) (counts_of 0 0) (omega arith) (omega arith)
          (ground arith) (omega arith) (omega arith) in
      let zero_p : 0 + partials left right 0 (n - 1) ≡ partials left right 0 (n - 1) =
        omega arith in
      let zero_d : 0 + decompositions left right 0 (n - 1) ≡ decompositions left right 0 (n - 1) =
        omega arith in
      rw (positive, forward, within) (rw (zero_p, zero_d) at runs)

  pub visited-frontier :
      left ≤ right
      → right < n
      → n ≤ size_max
      → visited (counts_of (partials left right 0 (n - 1)) (decompositions left right 0 (n - 1)))
        ≡ ok (frontier left right 0 (n - 1))
  unfolding visited
  visited-frontier ordered inside small =
      let all = frontier-add left right 0 (n - 1) (omega arith) in
      let few = few_nodes n left right (omega arith) small in
      let runs =
        checked_size_add-ok (partials left right 0 (n - 1)) (decompositions left right 0 (n - 1))
          (omega arith) in
      rw all runs

  -- On a valid range of an array whose size std::size_t holds, frontierCounts, visited, treeHeight
  -- and maximumFrontier return, and the visited nodes are at most maximumFrontier of the height.
  pub visited-within_maximum :
      left ≤ right
      → right < n
      → n ≤ size_max
      → (c : FrontierCounts) × (k h m : ℕ) × (frontier_counts n left right ≡ ok c)
        × (visited c ≡ ok k)
        × (tree_height n ≡ ok h)
        × (maximum_frontier h ≡ ok m)
        × (k ≤ m)
  unfolding tree_height
  visited-within_maximum ordered inside small =
      let (h, height, fits, least) = tree_height-log2 n (omega arith) small in
      (
        counts_of (partials left right 0 (n - 1)) (decompositions left right 0 (n - 1)),
        frontier left right 0 (n - 1),
        h,
        two_paths h,
        frontier_counts-counts ordered inside small,
        visited-frontier ordered inside small,
        height,
        maximum_frontier-two_paths h (height_small h n least small),
        frontier-two_paths left right h 0 (n - 1) (omega arith) (omega arith),
      )

validate_frontier_range-valid :
    (n left right : ℕ) → validate_frontier_range n left right ≡ ok tt → (left ≤ right) × (right < n)
unfolding validate_frontier_range
validate_frontier_range-valid n left right h = ground arith

-- The range of a call that returns was valid.
pub frontier_counts-valid :
    (n left right : ℕ) (c : FrontierCounts)
    → frontier_counts n left right ≡ ok c
    → (left ≤ right) × (right < n)
unfolding frontier_counts
frontier_counts-valid n left right c h =
    elim (Result-cases (validate_frontier_range n left right)) [
      | inl (tt, valid) ↦ validate_frontier_range-valid n left right valid
      | inr (e, bad) ↦ let thrown = rw bad at h in cc
    ]
