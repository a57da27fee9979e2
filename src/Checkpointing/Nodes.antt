-- ===== src/Checkpointing/Nodes.antt =====
-- The nodes of CheckpointingSegmentTree and the recursions of src/checkpointing_segment_tree.cpp over
-- them. A vector holds a tree in preorder. Each recursion takes fuel for its depth and is given the
-- array size.
use version_aware_lazy_segtr.Prelude.{
  ℕ, zero, suc, ◌+◌, ◌==◌, ◌||◌, List, [], ◌∷◌, ◌++◌, ltb, leb, covers, if◌then◌else◌, length,
  get_elem?, set,
}
use version_aware_lazy_segtr.Prelude.Int.{ℤ, pos}
use version_aware_lazy_segtr.Prelude.Result
use version_aware_lazy_segtr.Prelude.Result.{Result, ok, err, fault, out_of_fuel, or_fault}
use version_aware_lazy_segtr.Prelude.Run.{done, Action, pure, lift, reads, ◌>>=◌, ◌>>◌}
use version_aware_lazy_segtr.Policy.{checked_add}
use version_aware_lazy_segtr.Policy.SumAdd.{apply}
use version_aware_lazy_segtr.Size.{
  midpoint, inclusive_length, checked_size_add, checked_size_multiply,
}

pub record Node : Type 0 where
  pub sum : ℤ
  pub lazy : ℤ

abbrev pub node : ℤ → ℤ → Node
node s t = record { sum = s; lazy = t }

-- newLive.resize(count), whose elements are value-initialized.
abbrev pub blank_nodes : ℕ → List Node
blank_nodes zero = []
blank_nodes (suc n) = node (pos 0) (pos 0) ∷ blank_nodes n

-- nodes[i]
abbrev pub node_at : List Node → ℕ → Result Node
node_at nodes i = or_fault (get_elem? nodes i)

-- nodes[i] = n
abbrev pub store : ℕ → Node → Action (List Node) (Unit {0})
store i n = do
  stored ← reads (λ nodes. if ltb i (length nodes) then ok (set nodes i n) else err fault)
  λ old. done tt stored

unfoldable pub right_child : (node_index segment_left middle : ℕ) → Result ℕ
unfolding inclusive_length checked_size_add checked_size_multiply
right_child node_index segment_left middle =
    Result.◌>>=◌ (inclusive_length segment_left middle) λ length.
      Result.◌>>=◌ (checked_size_multiply 2 length) λ slots. checked_size_add node_index slots

unfoldable pub build :
    ℕ → List ℤ → (node_index segment_left segment_right : ℕ) → Action (List Node) (Unit {0})
unfolding right_child checked_add
build zero values node_index segment_left segment_right = lift (err out_of_fuel)
build (suc fuel) values node_index segment_left segment_right =
    if segment_left == segment_right
    then (do
      value ← lift (or_fault (get_elem? values segment_left))
      store node_index (node value (pos 0)))
    else (do
      let middle = midpoint segment_left segment_right
      right_index ← lift (right_child node_index segment_left middle)
      build fuel values (node_index + 1) segment_left middle
      build fuel values right_index (middle + 1) segment_right
      left ← reads (λ nodes. node_at nodes (node_index + 1))
      right ← reads (λ nodes. node_at nodes right_index)
      sum ← lift (checked_add left.sum right.sum)
      store node_index (node sum (pos 0)))

-- The preflight of an update: the sum that the node will have. It writes nothing.
unfoldable pub validate_update :
    ℕ
    → List Node
    → (node_index segment_left segment_right query_left query_right : ℕ) → ℤ
    → Result ℤ
unfolding right_child checked_add apply inclusive_length
validate_update zero nodes node_index segment_left segment_right query_left query_right value =
    err out_of_fuel
validate_update (suc fuel) nodes node_index segment_left segment_right query_left query_right
      value =
    let middle = midpoint segment_left segment_right in
    Result.◌>>=◌ (node_at nodes node_index) λ current.
      if covers query_left query_right segment_left segment_right
      then (Result.◌>>◌ (checked_add current.lazy value) (
          Result.◌>>=◌ (inclusive_length segment_left segment_right)
            λ length. apply value current.sum length))
      else (Result.◌>>=◌ (right_child node_index segment_left middle) λ right_index.
          Result.◌>>=◌ (node_at nodes (node_index + 1)) λ left.
            Result.◌>>=◌ (node_at nodes right_index) λ right.
              Result.◌>>=◌
                (if leb query_left middle
                  then validate_update fuel nodes (node_index + 1) segment_left middle query_left
                      query_right value
                  else ok left.sum)
                λ left_sum.
                  Result.◌>>=◌
                    (if ltb middle query_right
                      then validate_update fuel nodes right_index (middle + 1) segment_right
                          query_left query_right value
                      else ok right.sum)
                    λ right_sum. Result.◌>>=◌ (checked_add left_sum right_sum) λ children.
                      Result.◌>>=◌ (inclusive_length segment_left segment_right)
                        λ length. apply current.lazy children length)

unfoldable pub update :
    ℕ
    → (node_index segment_left segment_right query_left query_right : ℕ) → ℤ
    → Action (List Node) (Unit {0})
unfolding right_child checked_add apply inclusive_length
update zero node_index segment_left segment_right query_left query_right value =
    lift (err out_of_fuel)
update (suc fuel) node_index segment_left segment_right query_left query_right value =
    if ltb segment_right query_left || ltb query_right segment_left then pure tt else (do
      current ← reads (λ nodes. node_at nodes node_index)
      if covers query_left query_right segment_left segment_right
          then (do
            length ← lift (inclusive_length segment_left segment_right)
            sum ← lift (apply value current.sum length)
            store node_index (node sum current.lazy)
            lazy ← lift (checked_add current.lazy value)
            store node_index (node sum lazy))
          else (do
            let middle = midpoint segment_left segment_right
            right_index ← lift (right_child node_index segment_left middle)
            update fuel (node_index + 1) segment_left middle query_left query_right value
            update fuel right_index (middle + 1) segment_right query_left query_right value
            left ← reads (λ nodes. node_at nodes (node_index + 1))
            right ← reads (λ nodes. node_at nodes right_index)
            parent ← reads (λ nodes. node_at nodes node_index)
            children ← lift (checked_add left.sum right.sum)
            length ← lift (inclusive_length segment_left segment_right)
            sum ← lift (apply parent.lazy children length)
            store node_index (node sum parent.lazy)))

unfoldable pub query :
    ℕ
    → List Node
    → (node_index segment_left segment_right query_left query_right : ℕ) → ℤ
    → Result ℤ
unfolding right_child checked_add apply inclusive_length
query zero nodes node_index segment_left segment_right query_left query_right inherited_lazy =
    err out_of_fuel
query (suc fuel) nodes node_index segment_left segment_right query_left query_right inherited_lazy =
    if ltb segment_right query_left || ltb query_right segment_left
    then ok (pos 0)
    else (Result.◌>>=◌ (node_at nodes node_index) λ current.
        if covers query_left query_right segment_left segment_right
        then (Result.◌>>=◌ (inclusive_length segment_left segment_right)
            λ length. apply inherited_lazy current.sum length)
        else let middle = midpoint segment_left segment_right in
          Result.◌>>=◌ (checked_add inherited_lazy current.lazy) λ next_lazy.
            Result.◌>>=◌
              (query fuel nodes (node_index + 1) segment_left middle query_left query_right
                next_lazy)
              λ a. Result.◌>>=◌ (right_child node_index segment_left middle) λ right_index.
                Result.◌>>=◌
                  (query fuel nodes right_index (middle + 1) segment_right query_left query_right
                    next_lazy)
                  λ b. checked_add a b)

-- The vector to which the leaves are appended is passed on and handed back.
unfoldable pub materialize :
    ℕ → List Node → (node_index segment_left segment_right : ℕ) → ℤ → List ℤ → Result (List ℤ)
unfolding right_child checked_add apply
materialize zero nodes node_index segment_left segment_right inherited_lazy values = err out_of_fuel
materialize (suc fuel) nodes node_index segment_left segment_right inherited_lazy values =
    Result.◌>>=◌ (node_at nodes node_index) λ current.
      if segment_left == segment_right
      then (Result.◌>>=◌ (apply inherited_lazy current.sum 1) λ value. ok (values ++ (value ∷ [])))
      else let middle = midpoint segment_left segment_right in
        Result.◌>>=◌ (checked_add inherited_lazy current.lazy) λ next_lazy.
          Result.◌>>=◌
            (materialize fuel nodes (node_index + 1) segment_left middle next_lazy values)
            λ values. Result.◌>>=◌ (right_child node_index segment_left middle) λ right_index.
              materialize fuel nodes right_index (middle + 1) segment_right next_lazy values
