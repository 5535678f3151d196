-- ===== src/Collector/Examples.antt =====
-- The theorems on gc.c at a heap of two blocks.
use native.Mathlib.Decide.{dec_lt}
use mathlib.Core.Option.{Option, none, some}
use garbage_collector.Prelude.{
  ℕ, ◌+◌, ◌*◌, ◌≤◌, ◌<◌, ◌≡◌, inl, ◌⊎◌, refl, [], ◌∷◌, arith, if◌then◌else◌, ◌==◌, true, false,
  add64, sub64, inr,
}
use garbage_collector.Memory.Words.{Memory, byte_of, read64, write8, write64}
use garbage_collector.Small.Header.{size_with_alignment, init_header, clear_words, get_block_addr}
use garbage_collector.Small.Alloc.{
  SmallHeap, scan_block, scan_from_slider, find_block, take_new_block, init_new_block,
  allocate_new_block, allocate_small_object,
}
use garbage_collector.Small.Sweep.{sweep_small_heap, block_node, IsSwept}
use garbage_collector.Small.Init.{init_small_allocator}
use garbage_collector.Small.First.{allocate_small_object-init_small_allocator}
use garbage_collector.Small.Renewed.{collectable}
use garbage_collector.Nodes.Allocator.{LargeHeap, heap_size}
use garbage_collector.Large.Tree.{null, node, blocks, in_block}
use garbage_collector.Large.Cleanup.{survivors}
use garbage_collector.Large.Reclaim.{Disjoint, IsReclaimed}
use garbage_collector.Collector.Sweep.{sweep, sweep-IsSwept}
use garbage_collector.Object.Heaps.{
  Heaps, get_object, get_object_size, get_small_object, small_object_size,
}
use garbage_collector.Collector.Heap.{Gc, heaps_of}
use garbage_collector.Collector.Interface.{gc_malloc, gc_calloc}
use garbage_collector.Collector.Malloc.{Outcome, attempt, gc_malloc-at_once, gc_malloc-Outcome}
use garbage_collector.Collector.Calloc.{IsZeroed, gc_calloc-gc_malloc}

abbrev no_large : LargeHeap
no_large = record {
  nodes = record {
    cells = λ _. record {
      block = record { addr = 0; size = 0; is_marked = false };
      left = 0;
      right = 0;
    };
    head = 0;
  };
  free_root = 0;
  occupied_root = 0;
  start = 0;
  finish = 0;
}

-- The block at 65536 is for objects of 24 bytes, the next one is empty.
abbrev small : SmallHeap
small = record {
  start = 65536;
  mem = write64 (write64 (λ _. 0) 65544 24) 65536 65616;
  segreg = λ s. if s == 24 then 65536 ∷ [] else [];
  empty = 69632 ∷ [];
  cache = λ _. none;
}

abbrev gc : Gc
gc = record { small = small; small_end = 73728; large = no_large }

-- Nothing is collected.
abbrev no_service : Gc → Option Gc
no_service g = some g

serves_24 : (allocate_small_object small 24).1 ≡ 65616
unfolding allocate_small_object find_block scan_from_slider scan_block read64 write64 byte_of write8
    size_with_alignment add64 sub64
serves_24 = refl

serves_16 : (allocate_small_object small 16).1 ≡ 69712
unfolding allocate_small_object find_block take_new_block init_new_block allocate_new_block
    scan_from_slider scan_block read64 write64 byte_of size_with_alignment add64 init_header
    clear_words
serves_16 = refl

-- Three elements of 8 bytes.
gc_calloc-gc_malloc_example :
    (out : Gc) × (gc_calloc 5 no_service 3 8 gc ≡ some ((allocate_small_object small 24).1, out))
    × IsZeroed (allocate_small_object small 24).1 (3 * 8) (attempt gc 24) out
    × (((allocate_small_object small 24).1 ≡ 0) ⊎ ((1 ≤ 3 * 8) × (3 * 8 ≤ heap_size)))
gc_calloc-gc_malloc_example =
    gc_calloc-gc_malloc 5 no_service 3 8 (allocate_small_object small 24).1 gc (attempt gc 24)
      (gc_malloc-at_once 5 24 no_service (omega arith) (omega arith) gc (omega (arith, serves_24)))

found : get_object (heaps_of 5 gc) 65620 ≡ some 65616
unfolding get_object get_small_object small_object_size get_block_addr read64 write64 byte_of
    size_with_alignment heaps_of add64 sub64
found = refl

sized : get_object_size (heaps_of 5 (attempt gc 16)) 65616 ≡ some 24
unfolding get_object_size small_object_size get_block_addr heaps_of allocate_small_object find_block
    take_new_block init_new_block allocate_new_block scan_from_slider scan_block read64 write64
    byte_of write8 size_with_alignment add64 sub64 init_header clear_words
sized = refl

abbrev zeros : Memory
zeros = λ _. 0

abbrev fresh : Gc
fresh = record { small = init_small_allocator 2 65536 zeros; small_end = 73728; large = no_large }

-- A service thread that leaves one swept block.
abbrev swept : Gc
swept = record {
  small = sweep_small_heap 1 (collectable small zeros);
  small_end = 69632;
  large = no_large;
}

gc_malloc-Outcome_example :
    (res : ℕ) × (out : Gc) × (gc_malloc 5 (λ _. some swept) 24 fresh ≡ some (res, out))
    × Outcome fresh.small (collectable small zeros) 1 24 res out.small.mem
gc_malloc-Outcome_example =
    gc_malloc-Outcome 5 24 (λ _. some swept) (omega arith) (omega arith) fresh swept small zeros 1
      (allocate_small_object-init_small_allocator 2 65536 zeros 24 (omega arith) (omega arith)
        (λ x. omega arith) (λ x p q. refl) (omega arith) (omega arith)).0
      refl refl (omega arith) (λ x. omega arith)

-- One small object is marked, and one of two large blocks.
abbrev marked : Heaps
marked = record {
  small = record small { mem = write8 small.mem 65552 1 };
  small_end = 73728;
  large_start = 1_000_000;
  large_end = 1_100_000;
  large = record {
    occupied =
        node (record { addr = 1_000_000; size = 4000; is_marked = true }) null
          (node (record { addr = 1_008_000; size = 5000; is_marked = false }) null null);
    free = node (record { addr = 1_020_000; size = 1000; is_marked = false }) null null;
    spare = 3;
  };
}

marked-Disjoint : Disjoint marked.large.occupied marked.large.free
unfolding in_block
marked-Disjoint x h = ground arith

marked_sizes : (i : ℕ) → i < 2 → read64 marked.small.mem (block_node 65536 i + 8) ≤ 2008
unfolding read64 write64 write8 byte_of block_node
marked_sizes i p = elim (dec_lt i 1) [
  | yes q ↦ let e : i ≡ 0 = omega arith in rw e size_first
  | no q ↦ let e : i ≡ 1 = omega arith in rw e size_second
]
  where
    size_first : read64 marked.small.mem (block_node 65536 0 + 8) ≤ 2008
    size_first = omega arith

    size_second : read64 marked.small.mem (block_node 65536 1 + 8) ≤ 2008
    size_second = omega arith

sweep-IsSwept_example :
    let k = sweep 2 marked in
    let again = sweep 2 k in
    IsSwept 65536 marked.small.mem 2 k.small
    × IsReclaimed 999_999 1_100_000 marked.large.occupied marked.large.free 3 k.large
    × (blocks k.large.occupied ≡ survivors (blocks marked.large.occupied))
    × (again.small.empty ≡ k.small.empty)
    × ((s : ℕ) → again.small.segreg s ≡ k.small.segreg s)
    × (blocks again.large.occupied ≡ [])
sweep-IsSwept_example = sweep-IsSwept 2 999_999 1_100_000 1_000_000 1_099_999 marked (record {
  sizes = marked_sizes;
  small_fits = omega arith;
  large_fits = omega arith;
  above = omega arith;
  below = omega arith;
  occupied = omega arith;
  free = omega arith;
  heap = omega arith;
  apart = marked-Disjoint;
  one_sided = (inl refl, tt, (inr (inl refl), tt, tt));
})
