-- ===== src/Persistent/Quiet/Script.antt =====
-- A client that initializes the persistent tree and updates it a number of times.
use version_aware_lazy_segtr.Prelude.{
  ℕ, ◌+◌, ◌*◌, ◌≤◌, ◌<◌, ◌≡◌, refl, List, [], ◌∷◌, arith, length,
}
use native.Mathlib.Nat.{mul-le-mul_left, le_trans}
use version_aware_lazy_segtr.Prelude.Int.{ℤ}
use version_aware_lazy_segtr.Prelude.Run
use version_aware_lazy_segtr.Prelude.Run.{
  Action, Run, Ends, returns, raises, done, pure, ◌>>=◌, ◌>>◌,
}
use version_aware_lazy_segtr.Policy.{long_max}
use version_aware_lazy_segtr.Segment.{of_list}
use version_aware_lazy_segtr.Domain.{magnitude}
use version_aware_lazy_segtr.Domain.Envelope.{WithinBound}
use version_aware_lazy_segtr.Persistent.{
  PersistentLazySegmentTree, initialize, range_add, version_count, size,
}
use version_aware_lazy_segtr.Persistent.Quiet.Update.{Returns}
use version_aware_lazy_segtr.Persistent.Quiet.Step.{IsQuiet}
use version_aware_lazy_segtr.Persistent.Quiet.Advance.{range_add-returns}
use version_aware_lazy_segtr.Persistent.Quiet.Build.{initialize-returns}

-- A call of rangeAdd.
pub record Addition : Type 0 where
  pub left : ℕ
  pub right : ℕ
  pub value : ℤ

-- A valid range of an array of n elements, and a value within b.
abbrev pub Fits : ℕ → ℕ → Addition → Type 0
Fits n b u = (u.left ≤ u.right) × (u.right < n) × (magnitude u.value ≤ b)

pub data AllFit (n b : ℕ) : List Addition → Type 0 where
  none_left : AllFit n b []
  and : {u : Addition} {us : List Addition} → Fits n b u → AllFit n b us → AllFit n b (u ∷ us)

-- The calls in their order.
unfoldable pub range_adds : List Addition → Action PersistentLazySegmentTree (Unit {0})
range_adds [] = pure tt
range_adds (u ∷ us) = range_add u.left u.right u.value >> range_adds us

unfoldable pub script : List ℤ → List Addition → Action PersistentLazySegmentTree (Unit {0})
script values updates = initialize values >> range_adds updates

-- One version for each call.
abbrev Performed : PersistentLazySegmentTree → ℕ → Unit {0} → PersistentLazySegmentTree → Type 0
Performed tree k _ tree' = (version_count tree' ≡ version_count tree + k) × (size tree' ≡ size tree)

range_adds-returns :
    (b : ℕ) (us : List Addition) {w t : ℕ} {tree : PersistentLazySegmentTree}
    → IsQuiet w t tree
    → AllFit (size tree) b us
    → size tree * (w + t + 2 * (length us * b)) ≤ long_max
    → Returns (Performed tree (length us)) (range_adds us tree)
unfolding range_adds
range_adds-returns b [] q fit room = returns (omega arith, refl)
range_adds-returns b (u ∷ us) {w} {t} {tree} q (and (ordered, inside, small) rest) room =
    let n = tree.array_size in
    let first : n * (w + b + t) ≤ long_max = le_trans (mul-le-mul_left n (omega arith)) room in
    Run.bind _ (range_add-returns q b u.left u.right u.value small ordered inside first)
      (λ version tree' x.
        Run.mono
          (range_adds-returns b us x.quiet (rw x.size_kept rest)
            (rw x.size_kept (le_trans (mul-le-mul_left n (omega arith)) room)))
          (λ done tree'' (count, same).
            (omega (arith, count, x.count), rw (same, x.size_kept) refl))
          (λ e s none_such. none_such))

returned :
    {S A : Type 0} {P : A → S → Type 0} {run : Run S A}
    → Returns P run
    → (a : A) × (s : S) × (run ≡ done a s) × P a s
returned (returns {a} {s} p) = (a, s, refl, p)
returned (raises none_such) = absurd none_such

-- For a vector with an element that is no longer than the greatest long long and whose magnitudes
-- are within a, and rangeAdd calls with valid ranges and magnitudes within b, where the size times
-- the sum of a and, for each call, 2 b is a long long: initialize and then every call return,
-- whatever tree they start from, and leave a tree of the size of the vector with one version for
-- initialize and one for each call.
pub script_returns :
    (values : List ℤ) (updates : List Addition) (a b : ℕ) (tree : PersistentLazySegmentTree)
    → 0 < length values
    → length values ≤ long_max
    → WithinBound (of_list values) (length values) a
    → AllFit (length values) b updates
    → length values * (a + 2 * (length updates * b)) ≤ long_max
    → (tree' : PersistentLazySegmentTree) × (script values updates tree ≡ done tt tree')
      × (version_count tree' ≡ 1 + length updates)
      × (size tree' ≡ length values)
unfolding script
script_returns values updates a b tree some_element sized bounded fit room =
    let start =
      initialize-returns values a bounded
        (le_trans (mul-le-mul_left (length values) (omega arith)) room) some_element sized tree in
    let whole : Returns
        (λ u tree'. (version_count tree' ≡ 1 + length updates) × (size tree' ≡ length values))
        (script values updates tree) =
      Run.bind (λ u. range_adds updates) start
        (λ u tree1 (quiet, same, one).
          Run.mono
            (range_adds-returns b updates quiet (rw same fit) (rw same (omega (arith, room))))
            (λ u tree2 (count, kept). (rw one at count, rw same at kept))
            (λ e s none_such. none_such)) in
    let (u, tree', ran, facts) = returned whole in (tree', ran, facts.0, facts.1)
