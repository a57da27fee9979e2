-- ===== src/Lib.antt =====
-- Verification of the version-aware lazy segment tree: range additions and range sums over an array
-- of long long, with every published version still open to queries.
--
-- The program (include/valseg/ and src/) has one contract and several structures that keep it. A
-- structure starts from a vector, adds a value to an inclusive range of its newest version, and
-- sums an inclusive range of any published version. Arithmetic is that of exact signed integers; an
-- initialization or update is accepted only if the sums that the structure keeps are representable.
--
--   Prelude        the native numbers and lists with their tests; ℤ; a result for code that throws
--                  (Result); a run for code that throws and changes a state (Run), where the state
--                  comes back after a throw too, so that a rollback is visible; and std::vector with a
--                  fixed size (Vector).
--   Policy         include/valseg/policy.hpp: checkedAdd, checkedMultiply and checkedLength on an
--                  integer with the bounds of long long written out, and the policies SumAddPolicy,
--                  MinAddPolicy and AffineSumModPolicy with their laws.
--   Size           include/valseg/detail/checked_size.hpp, with std::size_t of 64 bits.
--   Validation     include/valseg/detail/validation.hpp.
--   Segment        what is promised: an array as a function of the index, the exact sum of a segment,
--                  an update of a range, and the numeric contract over the canonical segments.
--   Domain         include/valseg/detail/sum_add_domain.hpp: validateCanonicalSums and the guard
--                  SumAddDomainGuard with its scalar bound and its exact fallback.
--   BruteForce     include/valseg/brute_force_array.hpp, src/brute_force_array.cpp: the oracle.
--   Arena          the append-only std::vector of nodes, and what appending leaves alone.
--   Persistent     include/valseg/persistent_lazy_segment_tree.hpp and
--                  src/persistent_lazy_segment_tree.cpp. Write has build and update, Read has query
--                  and materialize, and the file itself the public operations. Holds says what a
--                  node stands for; Step, Update, Build, Query and Leaves prove the recursions;
--                  Represents relates a tree to a brute-force array; Publish, Refine, Restart,
--                  History, Preserve, Session and Undo are about the public operations, and
--                  Growth counts the nodes that an update appends, as the frontier of its range.
--                  Quiet is about calls on small numbers: Calm says that the values and the tags
--                  below a node are small, Update, Leaves and Build prove the recursions, Step
--                  and Advance are about one call of rangeAdd, and Script about any number of
--                  them.
--   Lazy           include/valseg/lazy_segment_tree.hpp and src/lazy_segment_tree.cpp. State has
--                  the two vectors, Write build, validateUpdate and update, Read query and
--                  materialize. Room is about the size of the vectors, Below says which entries a
--                  subtree has, Holds what a node stands
--                  for, Fits what the preflight finds out, and Frame what an update leaves alone;
--                  Build, Preflight, Update, Query and Leaves prove the recursions, and
--                  Represents, Refine and Restart are about the public operations.
--   Tagless        what include/valseg/full_copy_persistent_segment_tree.hpp,
--                  include/valseg/point_only_persistent_segment_tree.hpp and their sources under src/
--                  share: nodes without tags, build, query and the public operations, for any
--                  update of the arena that keeps the promise Publish.IsUpdate.
--   FullCopy       the update of src/full_copy_persistent_segment_tree.cpp, and its node count.
--   PointOnly      the update of src/point_only_persistent_segment_tree.cpp.
--   Checkpointing  include/valseg/checkpointing_segment_tree.hpp and
--                  src/checkpointing_segment_tree.cpp. State has the live tree, the log and the
--                  checkpoints, Nodes the recursions over a vector of nodes in preorder, Write the
--                  writes of rangeAdd in their order, and the file itself the public operations.
--                  Holds says what a node stands for and which slots a subtree has, Layout where the
--                  right child stands, Fits what the preflight finds out; Build, Preflight, Update,
--                  Query and Leaves prove the recursions. Represents relates the tree, its log and
--                  its checkpoints to a brute-force array, Schedule counts the checkpoints, and
--                  Written, Publish, Commit, Refine, Replay, History and Restart are about the
--                  public operations.
--   Frontier       include/valseg/frontier.hpp: the nodes that an update visits. Family has frontierSum
--                  and the two counters of ranges. Count and Bounds give the frontier as plain
--                  numbers, and Run compares the code with them. Over, Sums and Visits are about
--                  frontierSum, Ranges and AllRanges about its counter of all ranges, and Boundary,
--                  Paths, Loops, Along and ClosedForm about closedFormFrontier. Pushes is
--                  PushCountingModel, which runs beside PathCopyingActionTree with its pushes: Tags
--                  says what a change below a node leaves alone, Mirrors that both have the same
--                  tags; Push, Child, Join and Update prove the recursions, and Appends, Start and
--                  Session are about the public operations.
--   PolicyTrees    include/valseg/policy_trees.hpp over a policy as a parameter (Policy/Interface).
--                  PathCopying is PathCopyingActionTree with its flag, PointMaterialized the tree
--                  without tags, Pushed PushedLazyTree. Fold says what a history of elements is, Holds
--                  what a node stands for; Steps, Descend, Update, Query and Build prove the recursions,
--                  and Represents, Refine, History and Restart are about the public operations.
--                  Policies and AffinePolicy show that the three policies keep the laws.
--   Tests          runs at small inputs, and the results at inputs that meet their hypotheses.
--
-- A long long is an integer of Prelude/Int whose range is a hypothesis (IsLong), a std::size_t is a
-- number, and a std::vector is a list. A read outside a vector, which C++ leaves undefined, is the
-- exception fault of the model. Index arithmetic stays within the vectors and does not wrap. The
-- recursions over segments take fuel for their depth; they are given the number of elements, and a
-- segment of n elements is less than n deep, so that the fuel never runs out. Where C++ leaves the
-- order of the two calls in an argument list open, the left one is made first; both throw the same
-- exception.
--
-- Not modelled: allocation failure and vector capacity (reserve does not show), and moves and swaps,
-- which are assignments here. BufferedPathCopyingSegmentTree and FatNodePersistentSegmentTree (src/)
-- keep their versions in ways of their own, by slots and by states within a node, and are left out.
-- So are the copy-on-push tree of bench/copy_on_push_segment_tree.hpp, which has the strategy of
-- PathCopyingActionTree with pushes, the rest of the benchmark harness under bench/, which measures
-- and prints, and the tree under bench/external, which is another project's.
pub mod Checkpointing
pub mod PolicyTrees
pub mod Frontier
pub mod Prelude
pub mod Policy
pub mod Size
pub mod Validation
pub mod Segment
pub mod Domain
pub mod BruteForce
pub mod Arena
pub mod Persistent
pub mod Tests
pub mod Tagless
pub mod FullCopy
pub mod PointOnly
pub mod Lazy
