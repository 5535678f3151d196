-- ===== src/Small.antt =====
-- allocator/small-allocator.c, allocator/bitmap.c and sweeper/sweep.c: the heap of blocks of 4096
-- bytes, each with a header of 80 bytes and objects of one size.
pub mod Header
pub mod Slot
pub mod Bits
pub mod Marks
pub mod Alloc
pub mod ScanProof
pub mod Ready
pub mod Offered
pub mod AllocProof
pub mod Sweep
pub mod Init
pub mod Renewed
pub mod First
pub mod Core
pub mod Clearing
pub mod Fresh
pub mod Found
pub mod Taken
pub mod Keeps
pub mod Within
pub mod Produced
mod Examples
