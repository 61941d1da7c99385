-- ===== src/PowCache.antt =====
-- nogopow/cache.go: the cache of the seed data, over a list of items in the order of use.
pub mod Recent
pub mod Data
pub mod Tame
pub mod Answers
pub mod Calls
pub mod Lost
mod Tests
