-- ===== src/PolicyTrees.antt =====
-- The templates of include/valseg/policy_trees.hpp, over a policy as a parameter.
pub mod PathCopying
pub mod Fold
pub mod Holds
pub mod Steps
pub mod Descend
pub mod Update
pub mod Query
pub mod Build
pub mod Represents
pub mod Refine
pub mod History
pub mod Restart
pub mod Policies
pub mod AffinePolicy
pub mod PointMaterialized
pub mod Pushed
