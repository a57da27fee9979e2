-- ===== src/Persistent/Growth.antt =====
-- How many nodes the steps of update append.
pub mod Frontier
pub mod Updates
use version_aware_lazy_segtr.Prelude.{
  ℕ, zero, suc, ◌+◌, ◌-◌, ◌*◌, ◌^◌, ◌≤◌, ◌<◌, ◌≡◌, refl, inl, inr, ◌⊎◌, Bool, true, false, List, [],
  ◌∷◌, arith, ◌==◌, leb, ltb, covers, Bool-cases, ne_of_==, eq_of_==, leb→le, ltb→lt, ltb→le,
  leb→lt, covers→le, if◌then◌else◌, length, length-append, get_elem?,
}
use version_aware_lazy_segtr.Prelude.Int.{ℤ, pos}
use version_aware_lazy_segtr.Prelude.Result.{Error, Result, ok, err, or_fault, Result-cases}
use version_aware_lazy_segtr.Prelude.Run
use version_aware_lazy_segtr.Prelude.Run.{
  Action, Run, Ends, returns, raises, pure, lift, reads, ◌>>=◌, and_then,
}
use version_aware_lazy_segtr.Policy.{checked_add}
use version_aware_lazy_segtr.Policy.SumAdd.{apply}
use version_aware_lazy_segtr.Size.{midpoint, inclusive_length}
use version_aware_lazy_segtr.Arena.{Extends, Extends-refl, Extends-trans, append, read, no_node}
use version_aware_lazy_segtr.Persistent.Write.{Node, Arena, node, build, update}
use version_aware_lazy_segtr.Persistent.Step.{parent}
use native.Mathlib.Nat.{two-pow-succ}

-- An arena with exactly k nodes appended.
abbrev pub Longer : Arena → ℕ → Arena → Type 0
Longer nodes k nodes' = Extends nodes nodes' × (length nodes' ≡ length nodes + k)

-- A run that returns has appended exactly k nodes, and one that throws has appended some.
abbrev pub Adds : Arena → ℕ → Run Arena ℕ → Type 0
Adds nodes k run = Ends (λ i nodes'. Longer nodes k nodes') (λ e nodes'. Extends nodes nodes') run

append-Adds : (n : Node) (nodes : Arena) → Adds nodes 1 (append n nodes)
unfolding append
append-Adds n nodes =
    returns (record { added = n ∷ []; appended = refl }, length-append nodes (n ∷ []))

-- Two steps append what both append.
then-Adds :
    {nodes : Arena} {run : Run Arena ℕ} (j k : ℕ) (next : ℕ → Action Arena ℕ)
    → Adds nodes j run
    → ((a : ℕ) (s : Arena) → Adds s k (next a s))
    → Adds nodes (j + k) (and_then run next)
then-Adds j k next first step =
    Run.bind next (Run.mono first (λ a s x. x) (λ e s x. x)) λ a s (ext, grown).
      Run.mono (step a s) (λ i s' (ext', grown'). (Extends-trans ext ext', omega arith))
        (λ e s' x. Extends-trans ext x)

-- A step that only calculates appends nothing.
pub calculates :
    {A : Type 0} (k : ℕ) (nodes : Arena) (r : Result A) (next : A → Action Arena ℕ)
    → ((a : A) → Adds nodes k (next a nodes))
    → Adds nodes k (and_then (lift r nodes) next)
calculates k nodes (ok a) next h = h a
calculates k nodes (err e) next h = raises (Extends-refl nodes)

parent-Adds : (a b len : ℕ) (t : ℤ) (nodes : Arena) → Adds nodes 1 (parent a b len t nodes)
parent-Adds a b len t nodes = calculates 1 nodes (or_fault (get_elem? nodes a)) _ λ left.
    calculates 1 nodes (or_fault (get_elem? nodes b)) _ λ right.
      calculates 1 nodes (checked_add left.sum right.sum) _ λ children.
        calculates 1 nodes (apply t children len) _ λ sum. append-Adds (node a b sum t) nodes

-- Two children and their parent.
partial-Adds :
    (j k : ℕ) (go_left go_right : Action Arena ℕ) (len : ℕ) (t : ℤ) (nodes : Arena)
    → ((s : Arena) → Adds s j (go_left s))
    → ((s : Arena) → Adds s k (go_right s))
    → Adds nodes
        (j + k + 1)
        ((do new_left ← go_left; new_right ← go_right; parent new_left new_right len t) nodes)
partial-Adds j k go_left go_right len t nodes step_left step_right =
    let sum : j + k + 1 ≡ j + (k + 1) = omega arith in
    rw sum (
      then-Adds j (k + 1) _ (step_left nodes)
        λ a nodes1. then-Adds k 1 _ (step_right nodes1) λ b nodes2. parent-Adds a b len t nodes2)

-- A child that the range reaches, or one that is shared.
visited-Adds :
    (visit : Bool) (k c : ℕ) (go : Action Arena ℕ)
    → (visit ≡ true → (s : Arena) → Adds s k (go s))
    → (visit ≡ false → k ≡ 0)
    → (s : Arena) → Adds s k ((if visit then go else pure c) s)
visited-Adds true k c go h none_new s = h refl s
visited-Adds false k c go h none_new s =
    let zero_new = none_new refl in returns (Extends-refl s, omega arith)

module _ (ql qr : ℕ) (v : ℤ) where
  pub covered-Adds :
      (fuel i l r : ℕ) (nodes : Arena)
      → covers ql qr l r ≡ true
      → Adds nodes 1 (update fuel i l r ql qr v nodes)
  unfolding update
  covered-Adds zero i l r nodes full = raises (Extends-refl nodes)
  covered-Adds (suc fuel) i l r nodes full =
      calculates 1 nodes (or_fault (get_elem? nodes i)) _ λ n.
        calculates 1 nodes (inclusive_length l r) _ λ len. rw full (
          calculates 1 nodes (apply v n.sum len) _ λ s.
            calculates 1 nodes (checked_add n.lazy v) _
              λ t. append-Adds (node n.left_child n.right_child s t) nodes)

  -- A node that is not covered, from bounds for what its children append.
  pub split-Adds :
      (fuel i l r j k : ℕ) (nodes : Arena)
      → covers ql qr l r ≡ false
      → (leb ql (midpoint l r) ≡ true
          → (c : ℕ) (s : Arena) → Adds s j (update fuel c l (midpoint l r) ql qr v s))
      → (ltb (midpoint l r) qr ≡ true
          → (c : ℕ) (s : Arena) → Adds s k (update fuel c (midpoint l r + 1) r ql qr v s))
      → (leb ql (midpoint l r) ≡ false → j ≡ 0)
      → (ltb (midpoint l r) qr ≡ false → k ≡ 0)
      → Adds nodes (j + k + 1) (update (suc fuel) i l r ql qr v nodes)
  unfolding update
  split-Adds fuel i l r j k nodes partial step_left step_right off_left off_right =
      let m = midpoint l r in
      calculates (j + k + 1) nodes (or_fault (get_elem? nodes i)) _ λ n.
        calculates (j + k + 1) nodes (inclusive_length l r) _ λ len. rw partial (
          partial-Adds j k
            (if leb ql m then update fuel n.left_child l m ql qr v else pure n.left_child)
            (if ltb m qr then update fuel n.right_child (m + 1) r ql qr v else pure n.right_child)
            len n.lazy nodes
            (visited-Adds (leb ql m) j n.left_child (update fuel n.left_child l m ql qr v)
              (λ go. step_left go n.left_child) off_left)
            (visited-Adds (ltb m qr) k n.right_child (update fuel n.right_child (m + 1) r ql qr v)
              (λ go. step_right go n.right_child) off_right))
