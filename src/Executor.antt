-- ===== src/Executor.antt =====
-- src/synchronization/executor.ts: the execution of a plan.
pub mod Contexts
pub mod Machine
pub mod Actions
pub mod Runs
