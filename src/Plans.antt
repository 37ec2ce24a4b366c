-- ===== src/Plans.antt =====
-- src/synchronization/resource-plans.ts: what one resource needs, by its Apply Policy.
pub mod Env
pub mod Entries
pub mod Matching
pub mod Drift
pub mod Replace
pub mod Unmodified
pub mod Decoding
pub mod Merge
pub mod Recipes
pub mod Ensure
pub mod Dispatch
