-- ===== src/Bootstrap.antt =====
-- What a server knows of its index while it starts: readiness, and the checkpoint of the first build.
pub mod Readiness
pub mod Records
pub mod Checkpoint
pub mod Semantic
pub mod Sound
pub mod Marks
pub mod Calls
pub mod Resume
