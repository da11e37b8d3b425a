-- ===== src/Reindex.antt =====
-- The embedding-model migration: domain/reindex.py, ports/reindex.py and runtime/reindex.py.
pub mod Domain
pub mod Ports
pub mod State
pub mod Backfill
pub mod Source
pub mod Transitions
pub mod Serving
pub mod Consistent
pub mod Keeps
pub mod Complete
pub mod Resumed
pub mod Switched
