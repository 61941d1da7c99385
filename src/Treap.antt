-- ===== src/Treap.antt =====
-- database/internal/treap: the treaps that back the cached database transactions.
pub mod Node
pub mod Immutable
pub mod Mutable
pub mod Inorder
pub mod Order
pub mod SortedMap
pub mod Gaps
pub mod Valid
pub mod Put
pub mod Delete
pub mod Heap
pub mod HeapDelete
pub mod Traverse
pub mod MutableLaws
pub mod ParentStack
mod Tests
