-- ===== src/Lru.antt =====
-- neutrino/cache/lru: the cache that evicts the least recently used elements.
pub mod Cache
pub mod Recency
pub mod Elements
pub mod Evict
pub mod Append
pub mod Put
pub mod Insert
pub mod Methods
pub mod Runs
mod Tests
