-- ===== src/Bloom.antt =====
-- nogoutil/bloom: the bloom filter with its hash, and the partial merkle tree of a block.
pub mod Murmur
pub mod Filter
pub mod Kept
pub mod Found
pub mod Added
pub mod Match
pub mod Adds
pub mod Outputs
pub mod Inputs
pub mod Spends
pub mod Watched
pub mod Merkle
pub mod Partial
pub mod Widths
pub mod Tree
pub mod Built
pub mod Nodes
pub mod Whole
pub mod Block
pub mod Flags
pub mod Message
pub mod Delivered
mod Tests
