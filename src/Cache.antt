-- ===== src/Cache.antt =====
-- internal/cache/cache.go: the in-memory LRU cache of responses.
pub mod Policy
pub mod State
pub mod Lru
pub mod Valid
pub mod Eviction
pub mod Reads
pub mod Reach
pub mod Freshness
mod Tests
