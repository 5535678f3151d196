-- ===== src/Object.antt =====
-- allocator/object.c: from addresses to objects and their marks.
pub mod Heaps
pub mod Interior
pub mod Mark
pub mod Cells
pub mod Trees
pub mod Places
pub mod TreeMark
pub mod BitmapMark
pub mod Effect
mod Examples
