-- ===== src/Lazy/Room.antt =====
-- The size of the vectors of LazySegmentTree, and the indices of its nodes.
use native.Mathlib.Nat.{two-pow-succ, one-le-pow, mul-le-mul_left}
use version_aware_lazy_segtr.Prelude.{
  ℕ, zero, suc, ◌+◌, ◌-◌, ◌*◌, ◌^◌, ◌≤◌, ◌<◌, ◌≡◌, refl, inl, inr, some, arith, length, get_elem?,
}
use version_aware_lazy_segtr.Prelude.Int.{pos}
use version_aware_lazy_segtr.Size.{midpoint, size_max}
use version_aware_lazy_segtr.Lazy.{zeros}
use version_aware_lazy_segtr.Size.Exact.{tree_height-log2}

pub length-zeros : (n : ℕ) → length (zeros n) ≡ n
length-zeros zero = refl
length-zeros (suc n) = omega (arith, length-zeros n)

pub get_elem?-zeros : (n k : ℕ) → k < n → get_elem? (zeros n) k ≡ some (pos 0)
get_elem?-zeros zero k h = absurd (omega arith)
get_elem?-zeros (suc n) zero h = refl
get_elem?-zeros (suc n) (suc k) h = get_elem?-zeros n k (omega arith)

-- The entries below node fit into m, for a segment of 2 ^ k elements at most.
abbrev pub HasRoom : (m node k l r : ℕ) → Type 0
HasRoom m node k l r = (r + 1 - l ≤ 2 ^ k) × ((node + 2) * 2 ^ k ≤ m + 1)

pub room_here : (m node k l r : ℕ) → HasRoom m node k l r → node < m
room_here m node k l r (fits, room) =
    let one = mul-le-mul_left (node + 2) (one-le-pow k 2 (omega arith)) in omega (arith, one)

doubled :
    (m node p : ℕ)
    → (node + 2) * (p + p) ≤ m + 1
    → ((2 * node + 1 + 2) * p ≤ m + 1) × ((2 * node + 2 + 2) * p ≤ m + 1)
doubled m node p h = (omega arith, omega arith)

pub room_below :
    (m node k l r : ℕ)
    → l < r
    → HasRoom m node (suc k) l r
    → HasRoom m (2 * node + 1) k l (midpoint l r) × HasRoom m (2 * node + 2) k (midpoint l r + 1) r
room_below m node k l r lt (fits, room) =
    let double = two-pow-succ k in
    let (a, b) = doubled m node (2 ^ k) (rw double at room) in ((omega arith, a), (omega arith, b))

-- 4n entries are room enough for n elements.
pub root_room : (n : ℕ) → 0 < n → n ≤ size_max → (k : ℕ) × HasRoom (4 * n) 0 k 0 (n - 1)
root_room n p small =
    let (k, _, fits, near) = tree_height-log2 n p small in
    let room : (0 + 2) * 2 ^ k ≤ 4 * n + 1 = elim near [
      | inl none_left ↦ first k none_left
      | inr below ↦ close k below
    ] in
    (k, (omega arith, room))
  where
    first : (k : ℕ) → k ≡ 0 → (0 + 2) * 2 ^ k ≤ 4 * n + 1
    first k e = let one : 2 ^ 0 ≡ 1 = refl in rw e (omega arith)

    close : (k : ℕ) → 2 ^ (k - 1) < n → (0 + 2) * 2 ^ k ≤ 4 * n + 1
    close zero h = let one : 2 ^ 0 ≡ 1 = refl in omega arith
    close (suc k) h =
        let double = two-pow-succ k in
        let e : suc k - 1 ≡ k = omega arith in omega (arith, rw e at h)
