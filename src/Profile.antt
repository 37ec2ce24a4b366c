-- ===== src/Profile.antt =====
-- src/domain/profile.ts: the paths that the resources of a profile claim.
pub mod Paths
pub mod Targets
