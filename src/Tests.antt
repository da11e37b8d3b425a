-- ===== src/Tests.antt =====
-- Runs of the model at concrete inputs, and each theorem at an input that meets its hypotheses.
mod Routine
mod Reindex
mod Chunking
mod Batching
mod Cache
mod Bootstrap
mod Search
mod Switched
mod Index
mod ReadThrough
mod Memory
mod Indexing
mod Answers
mod Filters
