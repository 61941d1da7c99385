-- ===== src/HeaderList.antt =====
-- neutrino/headerlist: the newest block headers, in a ring of nodes.
pub mod Node
pub mod Ring
pub mod Window
pub mod Push
pub mod Pushed
pub mod Runs
pub mod Items
pub mod Newest
mod Tests
