-- ===== src/Small/Examples.antt =====
-- The theorems on the heap of small objects at a heap of three blocks.
use mathlib.Core.Option.{none}
use garbage_collector.Prelude.{
  ℕ, ◌+◌, ◌-◌, ◌*◌, ◌/◌, ◌%◌, ◌^◌, ◌≤◌, ◌<◌, ◌≡◌, ◌⊎◌, refl, [], ◌∷◌, arith, inl, inr, Bool-cases,
  if◌then◌else◌, ◌||◌, false, ◌==◌, add64, sub64,
}
use garbage_collector.Memory.Words.{Memory, byte_of, read64, write8, write64}
use garbage_collector.Small.Header.{size_with_alignment, is_bitmap_empty, words_empty}
use garbage_collector.Small.Slot.{IsBlock, IsCell, bit_at}
use garbage_collector.Small.Alloc.{
  SmallHeap, scan_block, scan_from_slider, find_block, allocate_small_object,
}
use garbage_collector.Small.ScanProof.{AreBytes, IsSized}
use garbage_collector.Small.Ready.{IsReady}
use garbage_collector.Small.Core.{IsInOrder}
use garbage_collector.Small.Offered.{IsSearchable}
use garbage_collector.Small.AllocProof.{IsHandedOut}
use garbage_collector.Small.Sweep.{sweep_small_heap, sweep_blocks, sweep_block, block_node}
use garbage_collector.Small.Keeps.{allocate_small_object-IsInOrder}
use garbage_collector.Small.Produced.{
  Produced, Produced-IsSound, written, initialised, allocated, collected, Produced-IsHandedOut,
}
use garbage_collector.Small.Init.{init_small_allocator}
use garbage_collector.Small.First.{allocate_small_object-init_small_allocator}
use garbage_collector.Small.Renewed.{collectable, sweep_small_heap-IsInOrder}

-- The block at 65536 holds objects of 24 bytes, of which the first is marked; the blocks behind it
-- are untouched.
abbrev memory : Memory
memory = write8 (write64 (write64 (λ _. 0) 65544 24) 65536 65616) 65552 1

abbrev heap : SmallHeap
heap = record {
  start = 65536;
  mem = memory;
  segreg = λ s. if s == 24 then 65536 ∷ [] else [];
  empty = 69632 ∷ 73728 ∷ [];
  cache = λ _. none;
}

-- The marked object is passed and its mark cleared; the next one is handed out.
allocate_runs : (allocate_small_object heap 24).1 ≡ 65640
unfolding allocate_small_object find_block scan_from_slider scan_block read64 write64 byte_of write8
    size_with_alignment add64 sub64
allocate_runs = refl

memory-AreBytes : AreBytes memory
unfolding write8 write64 byte_of
memory-AreBytes x = ground (arith, small (x - 65544) 24, small (x - 65536) 65616)
  where
    small : (i v : ℕ) → v / 256 ^ i % 256 < 256
    small i v = omega arith

first-IsBlock : IsBlock 65536 65536
first-IsBlock = omega arith

second-IsBlock : IsBlock 65536 69632
second-IsBlock = omega arith

third-IsBlock : IsBlock 65536 73728
third-IsBlock = omega arith

-- Behind the first block's header nothing was written.
memory_far : (x : ℕ) → 65616 ≤ x → memory x ≡ 0
unfolding write8 write64
memory_far x h = ground arith

unmarked_far : (b i : ℕ) → 69632 ≤ b → bit_at memory b i ≡ 0
unmarked_far b i h = rw (memory_far (b + 16 + i / 8) (omega arith)) (omega arith)

size_24 : size_with_alignment 24 ≡ 24
unfolding size_with_alignment add64
size_24 = refl

first-IsReady : IsReady 65536 memory 24 65536
unfolding read64 write8 write64 byte_of
first-IsReady = record {
  index = 0;
  located = first-IsBlock;
  sized = refl;
  slider = omega arith;
  inside = omega arith;
}

heap-IsSearchable : IsSearchable heap 24
heap-IsSearchable = record {
  bytes = memory-AreBytes;
  listed = (
    record {
      ready = first-IsReady;
      same = λ x p q. refl;
      apart = tt;
      apart_empty = (omega arith, (omega arith, tt));
    },
    tt,
  );
  empties = (
    record {
      unused = record {
        located = second-IsBlock;
        unmarked = λ i p. unmarked_far 69632 i (omega arith);
      };
      same = λ x p q. refl;
    },
    (
      record {
        unused = record {
          located = third-IsBlock;
          unmarked = λ i p. unmarked_far 73728 i (omega arith);
        };
        same = λ x p q. refl;
      },
      tt,
    ),
  );
  cached = λ b e. cc e;
}

first-IsSized : IsSized 65536 memory 65536 24
first-IsSized = record {
  block = first-IsBlock;
  sized = rw first-IsReady.sized size_24;
  wide = omega arith;
  bytes = memory-AreBytes;
}

slot : (i a : ℕ) → a ≡ 65616 + i * 24 → a + 24 ≤ 69632 → IsCell 65536 memory 65536 24 i a
slot i a e p = record {
  block = first-IsBlock;
  sized = first-IsSized.sized;
  wide = omega arith;
  at = e;
  starts = omega arith;
}

sweep_runs :
    ((sweep_small_heap 3 heap).empty ≡ 73728 ∷ 69632 ∷ [])
    × ((sweep_small_heap 3 heap).segreg 24 ≡ 65536 ∷ [])
unfolding sweep_small_heap sweep_blocks sweep_block block_node is_bitmap_empty words_empty read64
    write8 write64 byte_of
sweep_runs = (refl, refl)

allocate_small_object-init_small_allocator_example :
    let h = init_small_allocator 2 65536 (λ _. 0) in
    let (h', addr) = allocate_small_object h 24 in
    IsSearchable h 24 × IsHandedOut 65536 h.mem h'.mem 24 addr
allocate_small_object-init_small_allocator_example =
    allocate_small_object-init_small_allocator 2 65536 (λ _. 0) 24 (omega arith) (omega arith)
      (λ x. omega arith) (λ x p q. refl) (omega arith) (omega arith)

sweep_small_heap-IsInOrder_example :
    IsInOrder (sweep_small_heap 3 (collectable heap memory))
    × ((s : ℕ) → s ≤ 2008 → (sweep_small_heap 3 (collectable heap memory)).cache s ≡ none)
sweep_small_heap-IsInOrder_example =
    sweep_small_heap-IsInOrder 3 heap memory (omega arith) memory-AreBytes

heap-IsInOrder : IsInOrder heap
heap-IsInOrder = record {
  bytes = memory-AreBytes;
  listed = λ t p q. elim (Bool-cases (t == 24)) [
    | inl e ↦ let same : t ≡ 24 = ground (arith, e) in rw same heap-IsSearchable.listed
    | inr e ↦ rw e tt
  ];
  cached = λ t b p q ne e. cc e;
  empties = heap-IsSearchable.empties;
  different = ((omega arith, tt), (tt, tt));
}

allocate_small_object-IsInOrder_example :
    IsInOrder (allocate_small_object heap 24).0
    × ((t : ℕ) → 1 ≤ t → t ≤ 2008 → IsSearchable (allocate_small_object heap 24).0 t)
allocate_small_object-IsInOrder_example =
    allocate_small_object-IsInOrder heap 24 (omega arith) (omega arith) heap-IsInOrder

-- An object of 24 bytes is allocated and marked by the first collection.
abbrev after_collection : SmallHeap
after_collection =
    sweep_small_heap 3
      (collectable (allocate_small_object (init_small_allocator 3 65536 (λ _. 0)) 24).0 memory)

after_collection-Produced : Produced 3 65536 after_collection
after_collection-Produced = collected _ memory memory-AreBytes (
    allocated (init_small_allocator 3 65536 (λ _. 0)) 24 (omega arith) (omega arith)
      (initialised (λ _. 0) (λ x. omega arith) (λ x p q. refl)))

-- The program writes an object, and a word behind the heap.
abbrev after_write : SmallHeap
after_write = record after_collection {
  mem = λ x. if x == 65616 || x == 77824 then 5 else after_collection.mem x;
}

after_write-Produced : Produced 3 65536 after_write
unfolding block_node
after_write-Produced =
    let before =
      Produced-IsSound 3 65536 (omega arith) (omega arith) after_collection
        after_collection-Produced in
    written after_collection after_write.mem (λ x. byte x (before.ordered.bytes x))
      (λ i p x a b. outside i x p a b) after_collection-Produced
  where
    byte :
        (x : ℕ)
        → after_collection.mem x < 256
        → (if x == 65616 || x == 77824 then 5 else after_collection.mem x) < 256
    byte x h = elim (Bool-cases (x == 65616 || x == 77824)) [
      | inl e ↦ rw e (omega arith)
      | inr e ↦ rw e h
    ]

    outside :
        (i x : ℕ)
        → i < 3
        → block_node 65536 i ≤ x
        → x < block_node 65536 i + 80
        → (if x == 65616 || x == 77824 then 5 else after_collection.mem x) ≡ after_collection.mem x
    outside i x p a b = let e : (x == 65616 || x == 77824) ≡ false = ground arith in rw e refl

Produced-IsHandedOut_example :
    let h = (allocate_small_object after_write 40).0 in
    let (h', addr) = allocate_small_object h 24 in
    ((addr ≡ 0) × (h.empty ≡ [])) ⊎ IsHandedOut 65536 h.mem h'.mem 24 addr
Produced-IsHandedOut_example =
    Produced-IsHandedOut 3 65536 (omega arith) (omega arith)
      (allocate_small_object after_write 40).0 24
      (allocated after_write 40 (omega arith) (omega arith) after_write-Produced) (omega arith)
      (omega arith)
