-- ===== src/Indexing.antt =====
-- Indexing: indexing/coordinator.py with the planner it runs (indexing/semantic.py) and the receipts it
-- gives (ports/content_source.py).
pub mod Slices
pub mod Receipts
pub mod Semantic
pub mod Planner
pub mod Inputs
pub mod Grouped
pub mod Placement
pub mod Materialized
pub mod Groups
pub mod Finished
pub mod Parts
pub mod Runner
pub mod Sources
pub mod Cut
pub mod Coordinator
pub mod Answering
pub mod LastCursor
pub mod Answered
pub mod Completed
pub mod Calm
pub mod Succeeded
pub mod Behind
pub mod Moves
pub mod Saves
pub mod Safe
pub mod Started
pub mod Resumable
pub mod Prepared
pub mod Payload
pub mod Fitting
pub mod Reached
pub mod Covered
pub mod Stages
