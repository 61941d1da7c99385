-- ===== src/ConnMgr.antt =====
-- connmgr: the manager of outbound connections.
pub mod Manager
pub mod Sets
pub mod Invariant
pub mod Steps
pub mod Runs
pub mod Over
pub mod Delays
mod Tests
