-- ===== src/Small/Header.antt =====
-- The block header (allocator/small-allocator.h): the slider position at offset 0, the object size at
-- offset 8, the bitmap of 64 bytes at offset 16, the objects from offset 80. And allocator/bitmap.c.
use Prim.Native.Nat.{bit_xor}
use garbage_collector.Prelude.{
  ℕ, zero, suc, ◌+◌, ◌-◌, ◌/◌, ◌%◌, ◌^◌, Bool, true, false, ◌==◌, if◌then◌else◌, add64, sub64,
}
use garbage_collector.Memory.Words.{Memory, write8, read64, write64}

abbrev pub block_size : ℕ
block_size = 4096

abbrev pub block_header_size : ℕ
block_header_size = 80

abbrev pub max_object_size : ℕ
max_object_size = 2008

-- `GET_SIZE_WITH_ALIGNMENT`
unfoldable pub size_with_alignment : ℕ → ℕ
size_with_alignment size = add64 (if size % 8 == 0 then 0 else 8 - size % 8) size

-- The block of an address, in the heap that begins at `start`.
unfoldable pub get_block_addr : ℕ → ℕ → ℕ
get_block_addr start addr = sub64 addr (sub64 addr start % block_size)

-- The number of the object at an address. A size of 0, at which the program faults, gives 0.
unfoldable pub object_index : ℕ → Memory → ℕ → ℕ
unfolding get_block_addr size_with_alignment read64
object_index start m addr =
    let block = get_block_addr start addr in
    sub64 addr (block + block_header_size) / size_with_alignment (read64 m (block + 8))

unfoldable pub get_bit_by_address : ℕ → Memory → ℕ → ℕ
unfolding object_index
get_bit_by_address start m addr =
    let index = object_index start m addr in
    let byte = get_block_addr start addr + 16 + index / 8 in m byte / 2 ^ (index % 8) % 2

unfoldable pub set_bit_by_address : ℕ → Memory → ℕ → ℕ → Memory
unfolding object_index write8
set_bit_by_address start m addr bit =
    let index = object_index start m addr in
    let byte = get_block_addr start addr + 16 + index / 8 in
    if m byte / 2 ^ (index % 8) % 2 == bit
    then m
    else write8 m byte (bit_xor (m byte) (2 ^ (index % 8)))

-- The loop of `is_bitmap_empty` over the words that are left.
unfoldable pub words_empty : ℕ → Memory → ℕ → Bool
unfolding read64
words_empty zero m addr = true
words_empty (suc n) m addr = if read64 m addr == 0 then words_empty n m (addr + 8) else false

unfoldable pub is_bitmap_empty : Memory → ℕ → Bool
unfolding words_empty
is_bitmap_empty m block = words_empty 8 m (block + 16)

-- The loop that zeroes a bitmap, over the words that are left.
unfoldable pub clear_words : ℕ → Memory → ℕ → Memory
unfolding write64
clear_words zero m addr = m
clear_words (suc n) m addr = clear_words n (write64 m addr 0) (addr + 8)

unfoldable pub init_header : Memory → ℕ → ℕ → Memory
unfolding clear_words
init_header m block object_size =
    clear_words 8 (write64 (write64 m (block + 8) object_size) block (block + block_header_size))
      (block + 16)
