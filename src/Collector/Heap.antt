-- ===== src/Collector/Heap.antt =====
-- allocator/allocator.c over the heap of small objects and the heap of large ones. The calls of log
-- are left out, with `set_memory_limit`. `allocation_lock` is held in `allocate_new_object`.
use garbage_collector.Prelude.{
  ℕ, zero, suc, ◌/◌, ◌&&◌, Option, some, ◌>>=◌, ◌==◌, leb, ltb, if◌then◌else◌, add64,
}
use garbage_collector.Memory.Words.{Memory}
use garbage_collector.Small.Header.{block_size, max_object_size}
use garbage_collector.Small.Alloc.{SmallHeap, allocate_small_object}
use garbage_collector.Small.Init.{map_failed, init_small_allocator}
use garbage_collector.Large.Tree.{TreeNode, null, node}
use garbage_collector.Nodes.Store.{Cells}
use garbage_collector.Nodes.Allocator.{
  LargeHeap, heap_size, treenode_count, init_large_allocator, allocate_large_object,
}
use garbage_collector.Object.Heaps.{Heaps}

-- The global variables of both heaps; the memory of the small one is the memory of the process.
pub record Gc : Type 0 where
  pub small : SmallHeap
  -- `END_ALLOCATOR_HEAP`
  pub small_end : ℕ
  pub large : LargeHeap

-- `BLOCKS_COUNT`
unfoldable pub blocks_count : ℕ
blocks_count = heap_size / block_size

-- The answers of `mmap` and `malloc` are arguments, with what lies in memory then.
unfoldable pub init_allocator : (small_start large_start base : ℕ) → Memory → Cells → Gc
init_allocator small_start large_start base m cells = record {
  small = init_small_allocator blocks_count small_start m;
  small_end = if small_start == map_failed then 0 else add64 small_start heap_size;
  large = init_large_allocator treenode_count base large_start cells;
}

abbrev small_result : Gc → SmallHeap × ℕ → Option (ℕ × Gc)
small_result g (h, res) = some (res, record g { small = h })

abbrev large_result : Gc → ℕ × LargeHeap → Option (ℕ × Gc)
large_result g (res, l) = some (res, record g { large = l })

-- The fuel is for the depth of the trees.
unfoldable pub allocate_new_object : ℕ → ℕ → Gc → Option (ℕ × Gc)
allocate_new_object n size g =
    if leb 1 size && leb size max_object_size
    then small_result g (allocate_small_object g.small size)
    else if ltb max_object_size size && leb size heap_size
    then (allocate_large_object n g.large size >>= large_result g)
    else some (0, g)

-- The tree below a pointer, as a value.
unfoldable pub tree_of : ℕ → Cells → ℕ → TreeNode
tree_of zero cells p = null
tree_of (suc n) cells p =
    let cell = cells p in
    let l = tree_of n cells cell.left in
    let r = tree_of n cells cell.right in if p == 0 then null else node cell.block l r

-- The nodes of the list of spare ones.
unfoldable pub spare_of : ℕ → Cells → ℕ → ℕ
spare_of zero cells p = 0
spare_of (suc n) cells p =
    let rest = spare_of n cells (cells p).right in if p == 0 then 0 else suc rest

-- Both heaps as object.c reads them.
unfoldable pub heaps_of : ℕ → Gc → Heaps
heaps_of n g =
    let l = g.large in
    record {
      small = g.small;
      small_end = g.small_end;
      large_start = l.start;
      large_end = l.finish;
      large = record {
        occupied = tree_of n l.nodes.cells l.occupied_root;
        free = tree_of n l.nodes.cells l.free_root;
        spare = spare_of n l.nodes.cells l.nodes.head;
      };
    }
