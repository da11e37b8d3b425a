-- ===== src/Cache.antt =====
-- runtime/canonical_cache.py: the bounded cache and its clients.
pub mod Bounded
pub mod Recency
pub mod Lookup
pub mod Flights
pub mod Single
pub mod Candidates
pub mod Hydration
pub mod Coalesced
pub mod Missing
