-- ===== src/Frontier/Paths.antt =====
-- The partial nodes and the topmost covered ones of a range, found along the paths to its two ends.
use version_aware_lazy_segtr.Prelude.{
  ℕ, ◌+◌, ◌≤◌, ◌<◌, ◌≡◌, ◌&&◌, false, arith, leb, covers, if◌then◌else◌,
}
use version_aware_lazy_segtr.Size.{midpoint}
use version_aware_lazy_segtr.Frontier.Count.{
  partials, decompositions, misses, by_nodes, count_at-misses, count_at-covers, count_at-splits,
}
use version_aware_lazy_segtr.Frontier.Boundary.{along_path, along_path-off, along_path-splits}

abbrev pub one : ℕ → ℕ → ℕ
one l r = 1

-- What a node on the left path, on the right path, has hanging on it: the child on the range's side,
-- unless the range ends inside the node on the other side too.
abbrev pub hangs_left : ℕ → ℕ → ℕ → ℕ → ℕ
hangs_left ql qr l r = if leb r qr && leb ql (midpoint l r + 1) then 1 else 0

abbrev pub hangs_right : ℕ → ℕ → ℕ → ℕ → ℕ
hangs_right ql qr l r = if leb ql l && leb (midpoint l r) qr then 1 else 0

-- The range is given by the index before it, its first and last index, and the index behind it.
module _ (a ql qr b : ℕ) (before : a < ql) (ordered : ql ≤ qr) (behind : qr < b) (apart : a < b)
    (next_a : ql ≡ a + 1) (next_b : b ≡ qr + 1) where
  pub partials-paths :
      (l r : ℕ)
      → l ≤ r
      → (partials ql qr l r + along_path one a b apart l r
          ≡ along_path one a ql before l r + along_path one qr b behind l r)
        × (along_path one a b apart l r ≤ partials ql qr l r)
  partials-paths =
      by_nodes ql qr
        (λ l r le out.
          let none = count_at-misses 0 1 ql qr l r out in
          let none1 = along_path-off one a b apart l r (ground arith) in
          let none2 = along_path-off one a ql before l r (ground arith) in
          let none3 = along_path-off one qr b behind l r (ground arith) in
          (omega arith, omega arith))
        (λ l r le met full.
          let none = count_at-covers 0 1 ql qr l r met full in
          let none1 = along_path-off one a b apart l r (ground arith) in
          let none2 = along_path-off one a ql before l r (ground arith) in
          let none3 = along_path-off one qr b behind l r (ground arith) in
          (omega arith, omega arith))
        (λ l r lt met partial (on_left, few_left) (on_right, few_right).
          let here = count_at-splits 0 1 ql qr l r (omega arith) met partial in
          let s1 = along_path-splits one a b apart l r lt in
          let s2 = along_path-splits one a ql before l r lt in
          let s3 = along_path-splits one qr b behind l r lt in
          let tests : 1 + (if covers l r a b then 1 else 0)
              ≡ (if covers l r a ql then 1 else 0) + (if covers l r qr b then 1 else 0) =
            ground arith in
          let few : (if covers l r a b then 1 else 0) ≤ 1 = ground arith in
          (omega arith, omega arith))

  pub decompositions-paths :
      (l r : ℕ)
      → l ≤ r
      → decompositions ql qr l r
        ≡ (if misses ql qr l r then 0 else if covers ql qr l r then 1 else 0)
          + along_path (hangs_left ql qr) a ql before l r
          + along_path (hangs_right ql qr) qr b behind l r
  decompositions-paths =
      by_nodes ql qr
        (λ l r le out.
          let none = count_at-misses 1 0 ql qr l r out in
          let none2 = along_path-off (hangs_left ql qr) a ql before l r (ground arith) in
          let none3 = along_path-off (hangs_right ql qr) qr b behind l r (ground arith) in
          rw out (omega arith))
        (λ l r le met full.
          let none = count_at-covers 1 0 ql qr l r met full in
          let none2 = along_path-off (hangs_left ql qr) a ql before l r (ground arith) in
          let none3 = along_path-off (hangs_right ql qr) qr b behind l r (ground arith) in
          rw (met, full) (omega arith))
        (λ l r lt met partial on_left on_right.
          let m = midpoint l r in
          let here = count_at-splits 1 0 ql qr l r (omega arith) met partial in
          let s2 = along_path-splits (hangs_left ql qr) a ql before l r lt in
          let s3 = along_path-splits (hangs_right ql qr) qr b behind l r lt in
          let between : (l ≤ m) × (m < r) = (omega arith, omega arith) in
          let tests = children_covered l r m lt between met partial in
          rw (met, partial) (omega arith))
    where
      children_covered :
          (l r m : ℕ)
          → l < r
          → (l ≤ m) × (m < r)
          → misses ql qr l r ≡ false
          → covers ql qr l r ≡ false
          → (if misses ql qr l m then 0 else if covers ql qr l m then 1 else 0)
              + (if misses ql qr (m + 1) r then 0 else if covers ql qr (m + 1) r then 1 else 0)
            ≡ (if covers l r a ql then (if leb r qr && leb ql (m + 1) then 1 else 0) else 0)
              + (if covers l r qr b then (if leb ql l && leb m qr then 1 else 0) else 0)
      children_covered l r m lt between met partial = ground arith

-- The same for a range that begins at the first index: there is no path to its left end.
module _ (qr b : ℕ) (behind : qr < b) (next_b : b ≡ qr + 1) where
  pub partials-right_path : (l r : ℕ) → l ≤ r → partials 0 qr l r ≡ along_path one qr b behind l r
  partials-right_path =
      by_nodes 0 qr
        (λ l r le out.
          let none = count_at-misses 0 1 0 qr l r out in
          let none3 = along_path-off one qr b behind l r (ground arith) in omega arith)
        (λ l r le met full.
          let none = count_at-covers 0 1 0 qr l r met full in
          let none3 = along_path-off one qr b behind l r (ground arith) in omega arith)
        (λ l r lt met partial on_left on_right.
          let here = count_at-splits 0 1 0 qr l r (omega arith) met partial in
          let s3 = along_path-splits one qr b behind l r lt in
          let test : (if covers l r qr b then one l r else 0) ≡ 1 = ground arith in omega arith)

  pub decompositions-right_path :
      (l r : ℕ)
      → l ≤ r
      → decompositions 0 qr l r
        ≡ (if misses 0 qr l r then 0 else if covers 0 qr l r then 1 else 0)
          + along_path (hangs_right 0 qr) qr b behind l r
  decompositions-right_path =
      by_nodes 0 qr
        (λ l r le out.
          let none = count_at-misses 1 0 0 qr l r out in
          let none3 = along_path-off (hangs_right 0 qr) qr b behind l r (ground arith) in
          rw out (omega arith))
        (λ l r le met full.
          let none = count_at-covers 1 0 0 qr l r met full in
          let none3 = along_path-off (hangs_right 0 qr) qr b behind l r (ground arith) in
          rw (met, full) (omega arith))
        (λ l r lt met partial on_left on_right.
          let m = midpoint l r in
          let here = count_at-splits 1 0 0 qr l r (omega arith) met partial in
          let s3 = along_path-splits (hangs_right 0 qr) qr b behind l r lt in
          let between : (l ≤ m) × (m < r) = (omega arith, omega arith) in
          let tests = children_covered l r m lt between met partial in
          rw (met, partial) (omega arith))
    where
      children_covered :
          (l r m : ℕ)
          → l < r
          → (l ≤ m) × (m < r)
          → misses 0 qr l r ≡ false
          → covers 0 qr l r ≡ false
          → (if misses 0 qr l m then 0 else if covers 0 qr l m then 1 else 0)
              + (if misses 0 qr (m + 1) r then 0 else if covers 0 qr (m + 1) r then 1 else 0)
            ≡ (if covers l r qr b then (if leb 0 l && leb m qr then 1 else 0) else 0)
      children_covered l r m lt between met partial = ground arith
