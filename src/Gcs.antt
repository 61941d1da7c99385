-- ===== src/Gcs.antt =====
-- nogoutil/gcs: Golomb-coded sets, the filters of BIP 158.
pub mod Reduction
pub mod Stream
pub mod Filter
pub mod Rice
pub mod Sorted
pub mod Match
pub mod Built
pub mod MatchAny
pub mod Zip
pub mod Hash
pub mod AnyBuilt
pub mod Memory
pub mod Codec
mod Tests
