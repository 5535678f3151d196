-- ===== src/Memory.antt =====
-- Byte-addressed memory: what the collector reads and writes through `size_t*` and
-- `unsigned char*`, little-endian as on x86-64.
pub mod Words
pub mod Blocks
mod Examples
