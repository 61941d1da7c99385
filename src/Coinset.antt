-- ===== src/Coinset.antt =====
-- nogoutil/coinset: sets of coins with their totals, and the selection of coins.
pub mod Coins
pub mod Totals
pub mod Select
pub mod Fewest
mod Tests
