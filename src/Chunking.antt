-- ===== src/Chunking.antt =====
-- chunking/fixed_window_chunker.py: text cut into overlapping windows of a fixed size.
pub mod Windows
pub mod Stitch
pub mod Sizes
