-- ===== src/Chanutils.antt =====
-- neutrino/chanutils: a queue between goroutines, and the writer of batches that it feeds.
pub mod Queue
pub mod Order
pub mod Runs
pub mod Batch
pub mod Written
pub mod Stopped
mod Tests
