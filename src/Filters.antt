-- ===== src/Filters.antt =====
-- Filters: which records a vector search may return, domain/vector_filters.py.
pub mod Scoped
pub mod Compiled
pub mod Permitted
pub mod Given
pub mod Authorized
