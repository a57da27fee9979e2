-- ===== src/Arena.antt =====
-- The append-only std::vector of nodes on which the persistent trees keep their versions.
use version_aware_lazy_segtr.Prelude.{
  ℕ, ◌-◌, ◌≡◌, refl, sym, ap, ◌∙◌, Option, some, List, [], ◌∷◌, ◌++◌, arith, length, get_elem?,
  take, length-append, get_elem?-append, get_elem?-append_last, take-append,
}
use mathlib.Core.List.{append-nil, append_assoc}
use version_aware_lazy_segtr.Prelude.Result.{Error, or_fault}
use version_aware_lazy_segtr.Prelude.Run.{Action, done, reads, Ends, returns}

-- noNode, the greatest std::size_t.
abbrev pub no_node : ℕ
no_node = 0xffff_ffff_ffff_ffff

-- v.back(); none where the vector is empty and C++ leaves it undefined.
abbrev pub back : {A : Type 0} → List A → Option A
back xs = get_elem? xs (length xs - 1)

module _ {N : Type 0} where
  -- nodes[i]
  abbrev pub read : ℕ → Action (List N) N
  read i = reads λ nodes. or_fault (get_elem? nodes i)

  -- nodes.push_back(node); return nodes.size() - 1;
  unfoldable pub append : N → Action (List N) ℕ
  append node nodes = let nodes' = nodes ++ (node ∷ []) in done (length nodes' - 1) nodes'

  -- The second arena is the first one with nodes appended.
  pub record Extends (nodes nodes' : List N) : Type 0 where
    pub added : List N
    pub appended : nodes' ≡ nodes ++ added

  pub Extends-refl : (nodes : List N) → Extends nodes nodes
  Extends-refl nodes = record { added = []; appended = sym (append-nil nodes) }

  pub Extends-trans : {a b c : List N} → Extends a b → Extends b c → Extends a c
  Extends-trans {a} x y = record {
    added = x.added ++ y.added;
    appended = y.appended ∙ ap (λ l. l ++ y.added) x.appended ∙ append_assoc a x.added y.added;
  }

  -- What was published stays readable, and unchanged.
  pub Extends-get :
      {a b : List N} (i : ℕ) (n : N) → Extends a b → get_elem? a i ≡ some n → get_elem? b i ≡ some n
  Extends-get {a} i n x h = rw x.appended (get_elem?-append a x.added i n h)

  -- nodes.resize(checkpoint) takes back all that was appended.
  pub take-Extends : {a b : List N} → Extends a b → take (length a) b ≡ a
  take-Extends {a} x = rw x.appended (take-append a x.added)

  pub append-Ends :
      {E : Error → List N → Type 0} (n : N) (nodes : List N)
      → Ends (λ i nodes'. Extends nodes nodes' × (get_elem? nodes' i ≡ some n)) E (append n nodes)
  unfolding append
  append-Ends n nodes =
      let last : length (nodes ++ (n ∷ [])) - 1 ≡ length nodes =
        omega (arith, length-append nodes (n ∷ [])) in
      returns (record { added = n ∷ []; appended = refl }, rw last (get_elem?-append_last nodes n))

  pub back-append : (xs : List N) (a : N) → back (xs ++ (a ∷ [])) ≡ some a
  back-append xs a =
      let e : length (xs ++ (a ∷ [])) - 1 ≡ length xs = omega (arith, length-append xs (a ∷ [])) in
      rw e (get_elem?-append_last xs a)
