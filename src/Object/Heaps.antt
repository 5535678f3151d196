-- ===== src/Object/Heaps.antt =====
-- The functions of allocator/object.c over both heaps. `none` is `INVALID_ADDRESS` in `get_object`,
-- and a failed assertion in the others.
use mathlib.Core.Option.{Option, none, some}
use garbage_collector.Prelude.{
  ℕ, ◌+◌, ◌-◌, ◌%◌, Bool, true, false, ◌&&◌, ◌||◌, ◌==◌, leb, ltb, if◌then◌else◌,
}
use garbage_collector.Memory.Words.{read64}
use garbage_collector.Large.Tree.{TreeNode, null, node}
use garbage_collector.Large.Bst.{search_bst, ext_search_bst}
use garbage_collector.Large.Treap.{Roots}
use garbage_collector.Small.Header.{
  block_header_size, max_object_size, size_with_alignment, get_block_addr, get_bit_by_address,
  set_bit_by_address,
}
use garbage_collector.Small.Alloc.{SmallHeap}

pub record Heaps : Type 0 where
  pub small : SmallHeap
  -- `END_ALLOCATOR_HEAP`, `*START_BIG_ALLOCATOR_HEAP`, `*END_BIG_ALLOCATOR_HEAP`
  pub small_end : ℕ
  pub large_start : ℕ
  pub large_end : ℕ
  pub large : Roots

abbrev pub in_small : Heaps → ℕ → Bool
in_small h addr = leb h.small.start addr && ltb addr h.small_end

abbrev pub in_large : Heaps → ℕ → Bool
in_large h addr = leb h.large_start addr && ltb addr h.large_end

-- `get_object_size` at an address of the small heap.
unfoldable pub small_object_size : Heaps → ℕ → ℕ
small_object_size h addr =
    size_with_alignment (read64 h.small.mem (get_block_addr h.small.start addr + 8))

abbrev pub size_at : TreeNode → Option ℕ
size_at null = none
size_at (node b l r) = some b.size

abbrev pub addr_at : TreeNode → Option ℕ
addr_at null = none
addr_at (node b l r) = some b.addr

abbrev pub mark_at : TreeNode → Option Bool
mark_at null = none
mark_at (node b l r) = some b.is_marked

unfoldable pub get_object_size : Heaps → ℕ → Option ℕ
unfolding small_object_size
get_object_size h object =
    if in_small h object
    then some (small_object_size h object)
    else if in_large h object
    then size_at (search_bst h.large.occupied object)
    else none

-- The branch of `get_object` for the small heap.
unfoldable pub get_small_object : Heaps → ℕ → Option ℕ
unfolding small_object_size
get_small_object h addr =
    let offset = addr - get_block_addr h.small.start addr in
    let size = small_object_size h addr in
    if ltb offset block_header_size
    then none
    else if size == 0 || ltb max_object_size size
    then none
    else some (addr - (offset - block_header_size) % size_with_alignment size)

unfoldable pub get_object : Heaps → ℕ → Option ℕ
unfolding get_small_object
get_object h addr =
    if in_large h addr
    then addr_at (ext_search_bst h.large.occupied addr)
    else if in_small h addr
    then get_small_object h addr
    else none

-- `node->block.isMarked = true` at the node that `search_bst` finds.
unfoldable pub mark_bst : TreeNode → ℕ → TreeNode
mark_bst null addr = null
mark_bst (node b l r) addr = elim (addr == b.addr) [
  | true ↦ node (record b { is_marked = true }) l r
  | false ↦ elim (ltb addr b.addr) [
    | true ↦ node b (mark_bst l addr) r
    | false ↦ node b l (mark_bst r addr)
  ]
]

abbrev pub set_occupied : Heaps → TreeNode → Heaps
set_occupied h t = record h {
  large = record { occupied = t; free = h.large.free; spare = h.large.spare };
}

abbrev pub set_small_mem : Heaps → (ℕ → ℕ) → Heaps
set_small_mem h m = record h {
  small = record {
    start = h.small.start;
    mem = m;
    segreg = h.small.segreg;
    empty = h.small.empty;
    cache = h.small.cache;
  };
}

unfoldable pub mark_object : Heaps → ℕ → Option Heaps
unfolding mark_bst
mark_object h object =
    if in_large h object
    then some (set_occupied h (mark_bst h.large.occupied object))
    else if in_small h object
    then some (set_small_mem h (set_bit_by_address h.small.start h.small.mem object 1))
    else none

unfoldable pub is_marked : Heaps → ℕ → Option Bool
is_marked h object =
    if in_large h object
    then mark_at (search_bst h.large.occupied object)
    else if in_small h object
    then some (if get_bit_by_address h.small.start h.small.mem object == 0 then false else true)
    else none
