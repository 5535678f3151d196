-- ===== src/Object/Examples.antt =====
-- The theorems on allocator/object.c at concrete heaps.
use mathlib.Core.Option.{none, some}
use garbage_collector.Prelude.{
  ℕ, suc, ◌+◌, ◌-◌, ◌*◌, ◌/◌, ◌≤◌, ◌<◌, ◌≡◌, refl, false, [], arith, add64, sub64, inl,
}
use garbage_collector.Memory.Words.{Memory, read64, write64, byte_of}
use garbage_collector.Large.Tree.{null, node, blocks}
use garbage_collector.Large.Search.{find?, around}
use garbage_collector.Small.Header.{size_with_alignment, get_block_addr}
use garbage_collector.Small.Slot.{IsCell}
use garbage_collector.Object.Heaps.{
  Heaps, get_object, get_small_object, small_object_size, mark_object,
}
use garbage_collector.Object.Cells.{IsWellFormed}
use garbage_collector.Object.Places.{IsObject, IsMarking}
use garbage_collector.Object.Effect.{mark_object-IsMarking}
use garbage_collector.Object.Interior.{
  addr_of, IsObjectBlock, get_object-large, get_small_object-interior, get_small_object-tail,
}

-- One block of objects of 24 bytes at 65536, and two large objects behind 1000000.
abbrev memory : Memory
memory = write64 (λ _. 0) 65544 24

abbrev heaps : Heaps
heaps = record {
  small = record { start = 65536; mem = memory; segreg = λ _. []; empty = []; cache = λ _. none };
  small_end = 69632;
  large_start = 1_000_000;
  large_end = 1_100_000;
  large = record {
    occupied =
        node (record { addr = 1_000_000; size = 4000; is_marked = false }) null
          (node (record { addr = 1_008_000; size = 5000; is_marked = false }) null null);
    free = null;
    spare = 3;
  };
}

get_object-large_example :
    get_object heaps 1_009_000 ≡ addr_of (find? (around 1_009_000) (blocks heaps.large.occupied))
get_object-large_example = get_object-large heaps 1_009_000 0 refl (omega arith) (omega arith)

sized : size_with_alignment (read64 memory (65536 + 8)) ≡ 24
unfolding size_with_alignment add64 read64 write64 byte_of
sized = refl

exact : size_with_alignment 24 ≡ 24
unfolding size_with_alignment add64
exact = refl

block : IsObjectBlock heaps 65536 24
block = record {
  block = omega arith;
  sized = sized;
  positive = omega arith;
  most = omega arith;
  exact = exact;
}

get_small_object-interior_example :
    let index = (200 - 80) / 24 in
    (get_small_object heaps (65536 + 200) ≡ some (65536 + 80 + index * 24))
    × (65536 + 80 + index * 24 ≤ 65536 + 200)
    × (65536 + 200 < 65536 + 80 + suc index * 24)
get_small_object-interior_example =
    get_small_object-interior heaps 65536 24 200 block (omega arith) (omega arith)

-- 24 does not divide 4016: the last 8 bytes of the block belong to no object that fits.
get_small_object-tail_example :
    (object : ℕ) × (get_small_object heaps (65536 + 4090) ≡ some object)
    × (65536 + 4096 < object + 24)
get_small_object-tail_example =
    get_small_object-tail heaps 65536 24 4090 block (omega arith) (omega arith)

slot : (i a : ℕ) → a ≡ 65616 + i * 24 → a + 24 ≤ 69632 → IsCell 65536 memory 65536 24 i a
slot i a e p = record {
  block = omega arith;
  sized = sized;
  wide = omega arith;
  at = e;
  starts = omega arith;
}

memory_bytes : (x : ℕ) → memory x < 256
unfolding write64 byte_of
memory_bytes x = ground arith

heaps-IsWellFormed : IsWellFormed heaps
heaps-IsWellFormed = record {
  blocks = 1;
  whole = omega arith;
  small_fits = omega arith;
  large_fits = omega arith;
  apart = inl (omega arith);
  bytes = memory_bytes;
  laid = omega arith;
}

small-IsObject : IsObject heaps 65640
unfolding get_object get_small_object small_object_size size_with_alignment get_block_addr add64
    sub64 read64 write64 byte_of
small-IsObject = refl

mark_object-IsMarking_example :
    (t : Heaps) × (mark_object heaps 65640 ≡ some t) × IsMarking heaps t 65640
mark_object-IsMarking_example = mark_object-IsMarking heaps 65640 heaps-IsWellFormed small-IsObject
