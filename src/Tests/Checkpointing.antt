-- ===== src/Tests/Checkpointing.antt =====
-- CheckpointingSegmentTree over the array 1, 2, 3, with a checkpoint at every second version.
use version_aware_lazy_segtr.Prelude.{◌<◌, zero, suc, ◌≡◌, refl, List, [], ◌∷◌, arith}
use version_aware_lazy_segtr.Prelude.Int.{ℤ, pos, negsuc, ◌+ℤ◌, ◌-ℤ◌, ◌*ℤ◌}
use version_aware_lazy_segtr.Prelude.Result.{ok, Gives, invalid_argument}
use version_aware_lazy_segtr.Prelude.Run
use version_aware_lazy_segtr.Prelude.Run.{done, thrown, Ends}
use version_aware_lazy_segtr.Size.{canonical_node_count}
use version_aware_lazy_segtr.Segment.{AllLong}
use version_aware_lazy_segtr.Domain.{validate_range_add}
use version_aware_lazy_segtr.BruteForce
use version_aware_lazy_segtr.BruteForce.{BruteForceArray}
use version_aware_lazy_segtr.Persistent.History.{Answered}
use version_aware_lazy_segtr.Checkpointing.Nodes.{
  Node, node, right_child, build, validate_update, update, query,
}
use version_aware_lazy_segtr.Checkpointing.{
  CheckpointingSegmentTree, empty, update_event, checkpoint, build_live, install, initialize,
  validate_initialized, validate_version, validate_range, current_leaves, preflight, append_event,
  take_copy, update_live, on_back, update_copy, update_nodes, write, range_add, project, replay,
  range_sum, node_count,
}
use version_aware_lazy_segtr.Checkpointing.Represents.{Represents}
use version_aware_lazy_segtr.Checkpointing.Commit.{Published, Rejected}
use version_aware_lazy_segtr.Checkpointing.Refine.{checkpointing_refines}
use version_aware_lazy_segtr.Checkpointing.History.{Refused, checkpointing_range_sum_answers}
use version_aware_lazy_segtr.Checkpointing.Restart.{
  Restarted, Kept, checkpointing_initialize_restarts,
}

abbrev values : List ℤ
values = pos 1 ∷ pos 2 ∷ pos 3 ∷ []

abbrev three_nodes : List Node
three_nodes =
    node (pos 6) (pos 0)
    ∷ node (pos 3) (pos 0)
    ∷ node (pos 1) (pos 0)
    ∷ node (pos 2) (pos 0)
    ∷ node (pos 3) (pos 0)
    ∷ []

abbrev three : CheckpointingSegmentTree
three = record {
  live = three_nodes;
  events = [];
  checkpoints = checkpoint 0 three_nodes ∷ [];
  interval = 2;
  array_size = 3;
  numeric_domain = 3;
}

initialize-three : initialize values 2 empty ≡ done tt three
unfolding initialize install build_live build right_child canonical_node_count ◌+ℤ◌ ◌-ℤ◌
initialize-three = refl

initialize_without_interval : initialize values 0 three ≡ thrown invalid_argument three
unfolding initialize
initialize_without_interval = refl

-- Adding -5 to the first two elements tags their common node, and takes no checkpoint.
abbrev five_less : CheckpointingSegmentTree
five_less = record three {
  live =
      node (negsuc 3) (pos 0)
      ∷ node (negsuc 6) (negsuc 4)
      ∷ node (pos 1) (pos 0)
      ∷ node (pos 2) (pos 0)
      ∷ node (pos 3) (pos 0)
      ∷ [];
  events = update_event 0 1 (negsuc 4) ∷ [];
  numeric_domain = 8;
}

range_add-five_less : range_add 0 1 (negsuc 4) three ≡ done 1 five_less
unfolding range_add validate_initialized validate_range preflight current_leaves validate_range_add
    validate_update right_child write append_event take_copy update_nodes update_live update_copy
    update ◌+ℤ◌ ◌-ℤ◌ ◌*ℤ◌
range_add-five_less = refl

-- The second update takes one, of the updated nodes.
abbrev seven_more_nodes : List Node
seven_more_nodes =
    node (pos 10) (pos 0)
    ∷ node (pos 0) (negsuc 4)
    ∷ node (pos 1) (pos 0)
    ∷ node (pos 9) (pos 7)
    ∷ node (pos 10) (pos 7)
    ∷ []

abbrev seven_more : CheckpointingSegmentTree
seven_more = record five_less {
  live = seven_more_nodes;
  events = update_event 0 1 (negsuc 4) ∷ update_event 1 2 (pos 7) ∷ [];
  checkpoints = checkpoint 0 three_nodes ∷ checkpoint 2 seven_more_nodes ∷ [];
  numeric_domain = 15;
}

range_add-seven_more : range_add 1 2 (pos 7) five_less ≡ done 2 seven_more
unfolding range_add validate_initialized validate_range preflight current_leaves validate_range_add
    validate_update right_child write append_event take_copy update_nodes update_live update_copy
    on_back update ◌+ℤ◌ ◌-ℤ◌ ◌*ℤ◌
range_add-seven_more = refl

-- Version 1 is read from the checkpoint at version 0 and the first event.
range_sum-replayed : range_sum 1 1 2 seven_more ≡ ok (pos 0)
unfolding range_sum validate_initialized validate_version validate_range query right_child replay
    project ◌+ℤ◌ ◌-ℤ◌ ◌*ℤ◌
range_sum-replayed = refl

node_count-seven_more : node_count seven_more ≡ ok 17
unfolding node_count
node_count-seven_more = refl

values-AllLong : AllLong values
values-AllLong zero h = omega arith
values-AllLong (suc zero) h = omega arith
values-AllLong (suc (suc zero)) h = omega arith
values-AllLong (suc (suc (suc k))) h = absurd (omega arith)

checkpointing_initialize_restarts_example :
    Ends
      (λ u tree'. (0 < 2) × Restarted values BruteForce.empty tree')
      (Kept values 2 BruteForce.empty empty)
      (initialize values 2 empty)
checkpointing_initialize_restarts_example =
    checkpointing_initialize_restarts values values-AllLong (omega arith) 2 empty BruteForce.empty

abbrev sample : BruteForceArray
sample = record { versions = values ∷ [] }

three-Represents : (array : BruteForceArray) × Represents three array
three-Represents =
    let (_, (array, run, rep)) =
      Run.value
        (checkpointing_initialize_restarts values values-AllLong (omega arith) 2 empty
          BruteForce.empty)
        initialize-three in
    (array, rep)

five_less-Represents : (array : BruteForceArray) × Represents five_less array
five_less-Represents =
    let (array, run, rep, grown) =
      Run.value (checkpointing_refines three-Represents.1 0 1 (negsuc 4) (omega arith))
        range_add-five_less in
    (array, rep)

seven_more-Represents : (array : BruteForceArray) × Represents seven_more array
seven_more-Represents =
    let (array, run, rep, grown) =
      Run.value (checkpointing_refines five_less-Represents.1 1 2 (pos 7) (omega arith))
        range_add-seven_more in
    (array, rep)

checkpointing_refines_example :
    Ends
      (Published five_less five_less-Represents.0 1 2 (pos 7))
      (Rejected five_less 1 2)
      (range_add 1 2 (pos 7) five_less)
checkpointing_refines_example =
    checkpointing_refines five_less-Represents.1 1 2 (pos 7) (omega arith)

checkpointing_range_sum_answers_example :
    Gives
      (Answered seven_more-Represents.0 1 1 2)
      (Refused seven_more 1 1 2)
      (range_sum 1 1 2 seven_more)
checkpointing_range_sum_answers_example =
    checkpointing_range_sum_answers seven_more-Represents.1 1 1 2
