-- ===== src/Small/Slot.antt =====
-- The objects of a block, and their bits in its bitmap (allocator/bitmap.c).
use garbage_collector.Prelude.{
  ℕ, ◌+◌, ◌-◌, ◌*◌, ◌/◌, ◌%◌, ◌^◌, ◌≤◌, ◌<◌, ◌≡◌, ◌∙◌, add64, sub64, sub64-eq, size_mod, arith,
}
use garbage_collector.Memory.Words.{Memory, read64}
use garbage_collector.Small.Header.{
  size_with_alignment, get_block_addr, object_index, get_bit_by_address,
}

-- A size below the largest is rounded up to the next multiple of 8.
pub size_with_alignment_lem :
    (size : ℕ)
    → size + 8 < size_mod
    → (size ≤ size_with_alignment size)
      × (size_with_alignment size < size + 8)
      × (size_with_alignment size % 8 ≡ 0)
unfolding size_with_alignment add64
size_with_alignment_lem size h = ground arith

-- `base` is a block of the heap from `start`.
pub record IsBlock (start base : ℕ) : Type 0 where
  pub above : start ≤ base
  pub aligned : (base - start) % 4096 ≡ 0
  pub fits : base + 4096 < size_mod

pub get_block_addr-eq :
    (start base off : ℕ)
    → IsBlock start base
    → off < 4096
    → get_block_addr start (base + off) ≡ base
unfolding get_block_addr sub64
get_block_addr-eq start base off h p = omega arith

-- Address `addr` is object number `index` of the block `base`, whose objects take `size` bytes.
pub record IsSlot (start : ℕ) (m : Memory) (base size index addr : ℕ) : Type 0 where
  pub block : IsBlock start base
  pub sized : size_with_alignment (read64 m (base + 8)) ≡ size
  pub wide : 8 ≤ size
  pub at : addr ≡ base + 80 + index * size
  pub ends : addr + size ≤ base + 4096

-- The same for an object of which only the start need lie in the block.
pub record IsCell (start : ℕ) (m : Memory) (base size index addr : ℕ) : Type 0 where
  pub block : IsBlock start base
  pub sized : size_with_alignment (read64 m (base + 8)) ≡ size
  pub wide : 8 ≤ size
  pub at : addr ≡ base + 80 + index * size
  pub starts : addr < base + 4096

pub IsSlot-IsCell :
    {start base size index addr : ℕ} {m : Memory}
    → IsSlot start m base size index addr
    → IsCell start m base size index addr
IsSlot-IsCell s = record {
  block = s.block;
  sized = s.sized;
  wide = s.wide;
  at = s.at;
  starts = omega (arith, s.ends, s.wide);
}

cell_few : (index size : ℕ) → 8 ≤ size → index * size < 4016 → index < 502
cell_few index size h p = grind arith

div_exact : (index size : ℕ) → 8 ≤ size → index * size / size ≡ index
div_exact index size h = grind arith

pub IsCell-few :
    {start base size index addr : ℕ} {m : Memory}
    → IsCell start m base size index addr
    → index < 502
IsCell-few {size} {index} s = cell_few index size s.wide (omega arith)

pub IsCell-block :
    {start base size index addr : ℕ} {m : Memory}
    → IsCell start m base size index addr
    → get_block_addr start addr ≡ base
IsCell-block {start} {base} {size} {index} {addr} s =
    let e : addr ≡ base + (addr - base) = omega arith in
    rw e (get_block_addr-eq start base (addr - base) s.block (omega arith))

pub IsCell-index :
    {start base size index addr : ℕ} {m : Memory}
    → IsCell start m base size index addr
    → object_index start m addr ≡ index
unfolding object_index
IsCell-index {start} {base} {size} {index} {addr} {m} s =
    let before : sub64 addr (base + 80) ≡ index * size =
      sub64-eq addr (base + 80) (omega (arith, s.at)) (omega (arith, s.starts, s.block.fits))
      ∙ omega (arith, s.at) in
    rw (IsCell-block s, s.sized, before) (div_exact index size s.wide)

pub IsSlot-few :
    {start base size index addr : ℕ} {m : Memory}
    → IsSlot start m base size index addr
    → index < 502
IsSlot-few s = IsCell-few (IsSlot-IsCell s)

-- The bit of object number `index` in the bitmap of the block.
abbrev pub bit_at : Memory → ℕ → ℕ → ℕ
bit_at m base index = m (base + 16 + index / 8) / 2 ^ (index % 8) % 2

pub get_bit_by_address-bit_at :
    {start base size index addr : ℕ} {m : Memory}
    → IsCell start m base size index addr
    → get_bit_by_address start m addr ≡ bit_at m base index
unfolding get_bit_by_address
get_bit_by_address-bit_at s = rw (IsCell-index s, IsCell-block s)
