-- ===== src/Batching.antt =====
-- Bounded batches: utils/ordered_key_chunks.py and indexing/batches.py.
pub mod Keys
pub mod Records
