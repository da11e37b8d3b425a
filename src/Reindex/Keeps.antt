-- ===== src/Reindex/Keeps.antt =====
-- Every method of the routine saves consistent states only.
pub mod Rules
pub mod State
pub mod Backfill
pub mod Source
pub mod Validate
pub mod Serving
pub mod Rollback
pub mod Retry
pub mod Run
