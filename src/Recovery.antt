-- ===== src/Recovery.antt =====
-- src/synchronization/recovery.ts: how an active run is taken up again.
pub mod Journal
