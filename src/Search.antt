-- ===== src/Search.antt =====
-- Which and how many of the ranked results of a search are returned.
pub mod Groups
pub mod Adaptive
pub mod Projects
