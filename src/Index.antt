-- ===== src/Index.antt =====
-- Which files are added to an index and removed from it.
pub mod Reconcile
pub mod Changes
