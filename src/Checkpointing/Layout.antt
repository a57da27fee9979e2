-- ===== src/Checkpointing/Layout.antt =====
-- The slot that rightChild of src/checkpointing_segment_tree.cpp calculates.
use version_aware_lazy_segtr.Prelude.{
  ℕ, ◌+◌, ◌-◌, ◌*◌, ◌≤◌, ◌≡◌, refl, inl, inr, Bool-cases, ltb, false, ap, arith,
}
use version_aware_lazy_segtr.Prelude.Result
use version_aware_lazy_segtr.Prelude.Result.{Result, ok, Gives, gives, throws, IsOverflow}
use version_aware_lazy_segtr.Size.{midpoint, size_max, inclusive_length, checked_size_add}
use version_aware_lazy_segtr.Size.Exact.{
  inclusive_length-Gives, checked_size_add-exact, checked_size_multiply-exact, Oversized,
}
use version_aware_lazy_segtr.Checkpointing.Nodes.{right_child}
use version_aware_lazy_segtr.Checkpointing.Holds.{right_index}

-- rightChild returns the slot behind the left subtree, or throws an overflow.
pub right_child-Gives :
    (i l r : ℕ)
    → l ≤ r
    → Gives (λ j. j ≡ right_index i l r) IsOverflow (right_child i l (midpoint l r))
unfolding right_child checked_size_add
right_child-Gives i l r le =
    Result.bind (inclusive_length-Gives l (midpoint l r) (omega arith)) λ n en.
      Result.bind (Result.mono (checked_size_multiply-exact 2 n) (λ s h. h) (λ e h. h.0))
        λ slots (es, fits). elim (Bool-cases (ltb (size_max - i) slots)) [
          | inl over ↦ rw over (throws refl)
          | inr inside ↦ rw inside (gives (omega arith))
        ]

-- A calculation that gives n or exceeds std::size_t, for an n that std::size_t holds.
fitting :
    {n : ℕ} {run : Result ℕ}
    → Gives (λ k. (k ≡ n) × (k ≤ size_max)) (Oversized n) run
    → n ≤ size_max
    → run ≡ ok n
fitting (gives (e, h)) fits = ap ok e
fitting (throws (is, over)) fits = absurd (omega arith)

-- A slot that std::size_t holds is returned.
pub right_child-ok :
    (i l r : ℕ)
    → l ≤ r
    → right_index i l r ≤ size_max
    → right_child i l (midpoint l r) ≡ ok (right_index i l r)
unfolding right_child inclusive_length
right_child-ok i l r le fits =
    let m = midpoint l r in
    let ordered : ltb m l ≡ false = in_order l r in
    let n : m - l + 1 ≡ m + 1 - l = omega arith in
    rw
      (
        ordered,
        fitting (checked_size_add-exact (m - l) 1 (omega arith)) (omega arith),
        n,
        fitting (checked_size_multiply-exact 2 (m + 1 - l)) (omega arith),
        fitting (checked_size_add-exact i (2 * (m + 1 - l)) (omega arith)) fits,
      )
      refl
  where
    in_order : (l r : ℕ) → ltb (midpoint l r) l ≡ false
    in_order l r = ground arith
