-- ===== src/Lazy/Below.antt =====
-- The indices of a subtree of LazySegmentTree: a node, and what hangs below it.
use version_aware_lazy_segtr.Prelude.{ℕ, ◌+◌, ◌*◌, ◌≤◌, ◌≡◌, refl, inl, inr, ◌⊎◌, arith}
use mathlib.Core.Path.{subst}

-- k is a child of p.
abbrev pub ChildOf : ℕ → ℕ → Type 0
ChildOf p k = (k ≡ 2 * p + 1) ⊎ (k ≡ 2 * p + 2)

pub data Below (a : ℕ) : ℕ → Type 0 where
  here : {k : ℕ} → k ≡ a → Below a k
  up : {k p : ℕ} → ChildOf p k → Below a p → Below a k

pub Below-le : {a k : ℕ} → Below a k → a ≤ k
Below-le (here e) = omega arith
Below-le (up {k} {p} c b) =
    let le = Below-le b in elim c [ inl e ↦ omega arith | inr e ↦ omega arith ]

-- What is below a child is below its parent.
pub Below-child : {a c k : ℕ} → ChildOf a c → Below c k → Below a k
Below-child {a} {c} child (here {k} e) = up (rw e child) (here refl)
Below-child child (up c b) = up c (Below-child child b)

-- Two nodes above one index are above one another.
chain : {a b k : ℕ} → Below a k → Below b k → Below a b ⊎ Below b a
chain {a} {b} (here {k} e) y = inr (subst (λ x. Below b x) e y)
chain {a} {b} (up c x) (here e) = inl (subst (λ x. Below a x) e (up c x))
chain {a} {b} (up {k} {p} c x) (up {p = p'} c' y) =
    let same : p' ≡ p = same_parent c c' in chain x (subst (λ z. Below b z) same y)
  where
    same_parent : {k p q : ℕ} → ChildOf p k → ChildOf q k → q ≡ p
    same_parent (inl e) (inl e') = omega arith
    same_parent (inl e) (inr e') = absurd (omega arith)
    same_parent (inr e) (inl e') = absurd (omega arith)
    same_parent (inr e) (inr e') = omega arith

pub siblings_apart : (n : ℕ) {k : ℕ} → Below (2 * n + 1) k → ¬ Below (2 * n + 2) k
siblings_apart n x y = elim (chain x y) [
  | inl below ↦ not_below n below
  | inr below ↦ let le = Below-le below in omega arith
]
  where
    not_below : (n : ℕ) → ¬ Below (2 * n + 1) (2 * n + 2)
    not_below n (here e) = omega arith
    not_below n (up {p} c b) =
        let le = Below-le b in elim c [ inl e ↦ omega arith | inr e ↦ omega arith ]

-- A node is not below its children.
pub parent_apart : (n c : ℕ) → ChildOf n c → ¬ Below c n
parent_apart n c child b =
    let le = Below-le b in elim child [ inl e ↦ omega arith | inr e ↦ omega arith ]
