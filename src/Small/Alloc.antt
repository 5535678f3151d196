-- ===== src/Small/Alloc.antt =====
-- The functions of allocator/small-allocator.c for one thread. A `Node` is named by the address of
-- its block, and a linked list of nodes is a list of such addresses.
use mathlib.Core.Option.{Option, none, some}
use garbage_collector.Prelude.{
  ℕ, zero, suc, ◌+◌, Bool, true, false, List, [], ◌∷◌, ◌==◌, leb, ltb, if◌then◌else◌,
}
use garbage_collector.Memory.Words.{Memory, read64, write64}
use garbage_collector.Small.Header.{
  block_size, max_object_size, size_with_alignment, get_bit_by_address, set_bit_by_address,
  clear_words, init_header,
}

pub record SmallHeap : Type 0 where
  pub start : ℕ
  pub mem : Memory
  -- `SEGREG_LIST`, by object size
  pub segreg : ℕ → List ℕ
  -- `EMPTY_LIST_HEAD`
  pub empty : List ℕ
  -- `nodes_cache` of the thread, by object size
  pub cache : ℕ → Option ℕ

-- A list head is assigned for one object size.
abbrev pub set_entry : {V : Type 0} → (ℕ → V) → ℕ → V → ℕ → V
set_entry old size head s = if size == s then head else old s

-- The inner loop of `allocate_small_object`: the memory, the position where it stops, and
-- `is_block_found`.
pub record Scan : Type 0 where
  pub mem : Memory
  pub slider : ℕ
  pub found : Bool

unfoldable pub scan_block : ℕ → ℕ → ℕ → ℕ → ℕ → Memory → Scan
unfolding get_bit_by_address set_bit_by_address write64
scan_block zero start block size slider m = record { mem = m; slider = slider; found = false }
scan_block (suc fuel) start block size slider m = elim (leb (slider + size) (block + block_size)) [
  | true ↦ elim (get_bit_by_address start m slider == 0) [
    | true ↦ record { mem = write64 m block slider; slider = slider; found = true }
    | false ↦ scan_block fuel start block size (slider + size) (set_bit_by_address start m slider 0)
  ]
  | false ↦ record { mem = m; slider = slider; found = false }
]

-- More rounds than a block has objects.
abbrev pub scan_fuel : ℕ
scan_fuel = 512

-- A scan from the slider position that the block's header holds.
unfoldable pub scan_from_slider : SmallHeap → ℕ → ℕ → Scan
unfolding scan_block read64
scan_from_slider h size block = scan_block scan_fuel h.start block size (read64 h.mem block) h.mem

-- The blocks of one list in `fill_all_bitmaps_with_zeros`.
unfoldable pub clear_list : List ℕ → Memory → Memory
unfolding clear_words
clear_list [] m = m
clear_list (b ∷ bs) m = clear_list bs (clear_words 8 m (b + 16))

-- Its outer loop, over the sizes that are left.
unfoldable pub clear_lists : ℕ → ℕ → (ℕ → List ℕ) → Memory → Memory
unfolding clear_list
clear_lists zero i segreg m = m
clear_lists (suc n) i segreg m = clear_lists n (i + 1) segreg (clear_list (segreg i) m)

unfoldable pub fill_all_bitmaps_with_zeros : SmallHeap → SmallHeap
unfolding clear_lists
fill_all_bitmaps_with_zeros h = record h { mem = clear_lists max_object_size 1 h.segreg h.mem }

unfoldable pub allocate_new_block : SmallHeap → SmallHeap × Option ℕ
allocate_new_block h = elim h.empty [
  | [] ↦ (h, none)
  | b ∷ rest ↦ (record h { empty = rest }, some b)
]

-- What `allocate_small_object` does with the answer of `allocate_new_block`: the block is
-- initialised, or the heap is full.
unfoldable pub init_new_block : ℕ → SmallHeap × Option ℕ → SmallHeap × Option ℕ
init_new_block object_size (h, none) = (fill_all_bitmaps_with_zeros h, none)
init_new_block object_size (h, some b) =
    (record h { mem = init_header h.mem b object_size }, some b)

unfoldable pub take_new_block : SmallHeap → ℕ → SmallHeap × Option ℕ
take_new_block h object_size = init_new_block object_size (allocate_new_block h)

-- The outer loop of `allocate_small_object`, over the blocks of the list that are left. Each is
-- taken off by `get_block_from_segreg_list`.
unfoldable pub find_block : List ℕ → SmallHeap → ℕ → SmallHeap × Option ℕ
find_block [] h object_size =
    take_new_block (record h { segreg = set_entry h.segreg object_size [] }) object_size
find_block (b ∷ bs) h object_size =
    let s = scan_from_slider h (size_with_alignment object_size) b in
    let h' = record h { mem = s.mem; segreg = set_entry h.segreg object_size bs } in
    let rest = find_block bs h' object_size in if s.found then (h', some b) else rest

-- The end of `allocate_small_object`: the object at the slider is handed out.
unfoldable pub take_object : SmallHeap → ℕ → ℕ → SmallHeap × ℕ
unfolding read64 write64
take_object h object_size block =
    let slider = read64 h.mem block in
    let next = slider + size_with_alignment object_size in
    let cached = if leb (block + block_size) next then none else some block in
    (
      record h { mem = write64 h.mem block next; cache = set_entry h.cache object_size cached },
      slider,
    )

-- The address 0 is `NULL`.
unfoldable pub take_found : ℕ → SmallHeap × Option ℕ → SmallHeap × ℕ
unfolding take_object
take_found object_size (h, none) = (h, 0)
take_found object_size (h, some b) = take_object h object_size b

unfoldable pub allocate_small_object : SmallHeap → ℕ → SmallHeap × ℕ
unfolding take_found
allocate_small_object h object_size =
    let size = size_with_alignment object_size in
    elim (h.cache object_size) [
      | none ↦ take_found object_size (find_block (h.segreg object_size) h object_size)
      | some b ↦
          let s = scan_from_slider h size b in
          let cached = if ltb (b + block_size) (s.slider + size) then none else some b in
          let h' = record h { mem = s.mem; cache = set_entry h.cache object_size cached } in
          let rest = find_block (h'.segreg object_size) h' object_size in
          take_found object_size (if s.found then (h', some b) else rest)
    ]
