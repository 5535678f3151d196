-- ===== src/Nodes.antt =====
-- allocator/large-allocator.c with the trees of allocator/treap.c and allocator/binary-search-tree.c
-- as they lie in memory: nodes with pointers to nodes.
pub mod Store
pub mod Treap
pub mod Allocator
pub mod Shape
pub mod Insert
pub mod Allocate
pub mod Split
mod Examples
