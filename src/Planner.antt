-- ===== src/Planner.antt =====
-- src/synchronization/planner.ts: the plan of a follower against one revision.
pub mod Data
pub mod Index
pub mod Order
pub mod Transfers
pub mod Validate
pub mod Build
pub mod Synchronize
