-- ===== src/ReadThrough.antt =====
-- `ValidatedReadThroughCache` of runtime/validated_read_cache.py.
pub mod Parts
pub mod Load
pub mod Waiters
pub mod Served
