-- ===== src/Collector.antt =====
-- allocator/allocator.c, which chooses the heap of an object, and gc.c, the collector's interface.
pub mod Heap
pub mod Sweep
pub mod Interface
pub mod Calloc
pub mod Malloc
pub mod Realloc
mod Examples
