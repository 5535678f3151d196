-- ===== src/Large.antt =====
-- allocator/large-allocator.h, allocator/binary-search-tree.c and allocator/treap.c: the trees of
-- free and of occupied blocks of the large heap.
pub mod Tree
pub mod Bst
pub mod Treap
pub mod Layout
pub mod Search
pub mod Remove
pub mod Merge
pub mod Ends
pub mod Join
pub mod Insert
pub mod Heap
pub mod Cleanup
pub mod Reclaim
pub mod Occupied
pub mod Live
mod Examples
