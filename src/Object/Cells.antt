-- ===== src/Object/Cells.antt =====
-- The objects that `get_object` of allocator/object.c finds in the small heap.
use mathlib.Core.Option.{some}
use garbage_collector.Prelude.{
  ℕ, ◌+◌, ◌-◌, ◌*◌, ◌/◌, ◌%◌, ◌≤◌, ◌<◌, ◌≡◌, ◌∙◌, ◌⊎◌, ap, refl, sym, true, false, arith, size_mod,
  inl, inr, add64, sub64,
}
use garbage_collector.Memory.Words.{read64}
use garbage_collector.Large.Layout.{Laid}
use garbage_collector.Small.Header.{size_with_alignment, get_block_addr}
use garbage_collector.Small.Slot.{IsBlock, IsCell, get_block_addr-eq}
use garbage_collector.Object.Heaps.{
  Heaps, in_small, in_large, small_object_size, get_small_object, get_object, get_object_size,
}
use garbage_collector.Object.Interior.{IsObjectBlock, get_small_object-interior}

-- The small heap is a number of blocks, its bytes are bytes, the large heap lies apart from it, and
-- the occupied blocks lie in the large heap.
pub record IsWellFormed (h : Heaps) : Type 0 where
  pub blocks : ℕ
  pub whole : h.small_end ≡ h.small.start + 4096 * blocks
  pub small_fits : h.small_end < size_mod
  pub large_fits : h.large_end < size_mod
  pub apart : (h.small_end ≤ h.large_start) ⊎ (h.large_end ≤ h.small.start)
  pub bytes : (x : ℕ) → h.small.mem x < 256
  pub laid : Laid 0 h.large_start h.large_end h.large.occupied

-- An object of the small heap starts in a block, a whole number of sizes behind the header.
pub record IsSmall (h : Heaps) (object : ℕ) : Type 0 where
  pub base : ℕ
  pub size : ℕ
  pub index : ℕ
  pub cell : IsCell h.small.start h.small.mem base size index object
  pub inside : base + 4096 ≤ h.small_end
  pub most : size ≤ 2008
  pub exact : size_with_alignment size ≡ size

size_with_alignment-mod : (w : ℕ) → size_with_alignment w % 8 ≡ 0
unfolding size_with_alignment add64
size_with_alignment-mod w = ground arith

size_with_alignment_exact : (w : ℕ) → w % 8 ≡ 0 → w < size_mod → size_with_alignment w ≡ w
unfolding size_with_alignment add64
size_with_alignment_exact w h p = ground arith

-- The block of an address in the small heap.
pub block_of :
    (start n last x : ℕ)
    → last ≡ start + 4096 * n
    → last < size_mod
    → start ≤ x
    → x < last
    → IsBlock start (get_block_addr start x)
      × (get_block_addr start x ≤ x)
      × (x < get_block_addr start x + 4096)
      × (get_block_addr start x + 4096 ≤ last)
unfolding get_block_addr sub64
block_of start n last x e fits p q = (
  record { above = omega arith; aligned = omega arith; fits = omega arith },
  omega arith,
  omega arith,
  omega arith,
)

-- What the tests of the small branch of `get_object` let through.
accepted :
    (h : Heaps) (x object : ℕ)
    → get_small_object h x ≡ some object
    → (80 ≤ x - get_block_addr h.small.start x)
      × (0 < small_object_size h x)
      × (small_object_size h x ≤ 2008)
unfolding get_small_object
accepted h x object e = ground arith

some_injective : (a b : ℕ) → some a ≡ some b → a ≡ b
some_injective a b e = ground arith

cell_of :
    (h : Heaps) (base size off object : ℕ)
    → IsObjectBlock h base size
    → base + 4096 ≤ h.small_end
    → 80 ≤ off
    → off < 4096
    → size % 8 ≡ 0
    → get_small_object h (base + off) ≡ some object
    → IsSmall h object
cell_of h base size off object b top p q whole e =
    let found = get_small_object-interior h base size off b p q in
    let at : object ≡ base + 80 + (off - 80) / size * size =
      some_injective object (base + 80 + (off - 80) / size * size) (sym e ∙ found.0) in
    record {
      base = base;
      size = size;
      index = (off - 80) / size;
      cell = record {
        block = b.block;
        sized = b.sized;
        wide = omega (arith, b.positive);
        at = at;
        starts = omega (arith, found.1);
      };
      inside = top;
      most = b.most;
      exact = b.exact;
    }

-- Whatever the small branch of `get_object` finds starts in a block of the heap.
pub get_small_object-IsSmall :
    (h : Heaps) (x object : ℕ)
    → IsWellFormed h
    → in_small h x ≡ true
    → get_small_object h x ≡ some object
    → IsSmall h object
unfolding small_object_size
get_small_object-IsSmall h x object w within e =
    let start = h.small.start in
    let base = get_block_addr start x in
    let (block, low, high, top) =
      block_of start w.blocks h.small_end x w.whole w.small_fits (ground (arith, within))
        (ground (arith, within)) in
    let (off, positive, most) = accepted h x object e in
    let back : base + (x - base) ≡ x = omega arith in
    let b : IsObjectBlock h base (small_object_size h x) = record {
      block = block;
      sized = refl;
      positive = positive;
      most = most;
      exact =
          size_with_alignment_exact (small_object_size h x)
            (size_with_alignment-mod (read64 h.small.mem (base + 8))) (omega arith);
    } in
    cell_of h base (small_object_size h x) (x - base) object b top off (omega arith)
      (size_with_alignment-mod (read64 h.small.mem (base + 8))) (ap (get_small_object h) back ∙ e)

div_exact : (index size : ℕ) → 8 ≤ size → index * size / size ≡ index
div_exact index size h = grind arith

-- An object of the small heap is found at its own start, with the size of the block's objects.
pub record IsFound (h : Heaps) (object size : ℕ) : Type 0 where
  pub not_large : in_large h object ≡ false
  pub in_small : in_small h object ≡ true
  pub found : get_object h object ≡ some object
  pub sized : get_object_size h object ≡ some size

pub IsSmall-IsFound :
    (h : Heaps) (object : ℕ) → IsWellFormed h → (s : IsSmall h object) → IsFound h object s.size
unfolding get_object get_object_size small_object_size
IsSmall-IsFound h object w s =
    let off = 80 + s.index * s.size in
    let at : object ≡ s.base + off = omega (arith, s.cell.at) in
    let b : IsObjectBlock h s.base s.size = record {
      block = s.cell.block;
      sized = s.cell.sized;
      positive = omega (arith, s.cell.wide);
      most = s.most;
      exact = s.exact;
    } in
    let low : off < 4096 = omega (arith, s.cell.starts) in
    let found = get_small_object-interior h s.base s.size off b (omega arith) low in
    let less : off - 80 ≡ s.index * s.size = omega arith in
    let same : (off - 80) / s.size ≡ s.index = rw less (div_exact s.index s.size s.cell.wide) in
    let whole : s.base + 80 + (off - 80) / s.size * s.size ≡ object =
      rw same (omega (arith, s.cell.at)) in
    let not_large : in_large h object ≡ false = outside w.apart in
    let in_small : in_small h object ≡ true =
      ground (arith, s.cell.block.above, s.cell.starts, s.inside, at) in
    record {
      not_large = not_large;
      in_small = in_small;
      found = rw (not_large, in_small) (ap (get_small_object h) at ∙ found.0 ∙ ap some whole);
      sized =
          rw
            (
              in_small,
              ap (get_block_addr h.small.start) at,
              get_block_addr-eq h.small.start s.base off s.cell.block low,
              s.cell.sized,
            )
            refl;
    }
  where
    outside :
        (h.small_end ≤ h.large_start) ⊎ (h.large_end ≤ h.small.start) → in_large h object ≡ false
    outside (inl k) = ground (arith, s.cell.starts, s.inside)
    outside (inr k) = ground (arith, s.cell.block.above, s.cell.at)
