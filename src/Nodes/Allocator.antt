-- ===== src/Nodes/Allocator.antt =====
-- `__init_large_allocator` and `allocate_large_object` of allocator/large-allocator.c. The calls of
-- log are left out, and `check_the_space`, of which the result is not used. `global_lock` makes a
-- call one step.
use garbage_collector.Prelude.{
  ℕ, zero, suc, ◌+◌, ◌*◌, ◌/◌, false, ◌==◌, if◌then◌else◌, Option, some, ◌>>=◌, add64, sub64,
}
use garbage_collector.Small.Header.{max_object_size, size_with_alignment}
use garbage_collector.Nodes.Store.{
  Cells, put, set_block, addr_of, size_of, insert_bst, first_fit_search,
}
use garbage_collector.Nodes.Treap.{Nodes, get_new_tree_node, insert_treap, remove_treap}

-- The global variables of the file.
pub record LargeHeap : Type 0 where
  pub nodes : Nodes
  pub free_root : ℕ
  pub occupied_root : ℕ
  -- `*START_BIG_ALLOCATOR_HEAP` and `*END_BIG_ALLOCATOR_HEAP`
  pub start : ℕ
  pub finish : ℕ

-- The default of the build.
abbrev pub heap_size : ℕ
heap_size = 512 * 1024 * 1024

unfoldable pub treenode_count : ℕ
unfolding size_with_alignment
treenode_count = heap_size / size_with_alignment (max_object_size + 1)

-- The loop over `TREENODES_LIST`, whose nodes stand at `base` and each 40 bytes behind the one before:
-- the first node, the number of nodes that are left, and the memory.
unfoldable pub link_nodes : ℕ → ℕ → Cells → Cells
unfolding put
link_nodes zero p cells = cells
link_nodes (suc n) p cells =
    let next = if n == 0 then 0 else p + 40 in
    link_nodes n (p + 40) (
      put cells p (record (cells p) {
        block = record { addr = 0; size = 0; is_marked = false };
        right = next;
      }))

-- The answers of `malloc`, for the nodes, and of `mmap`, and what lay in the memory of the nodes.
unfoldable pub init_large_allocator : ℕ → ℕ → ℕ → Cells → LargeHeap
unfolding link_nodes get_new_tree_node put
init_large_allocator count base start cells =
    let (root, nodes) =
      get_new_tree_node (record { cells = link_nodes count base cells; head = base }) in
    record {
      nodes = record {
        cells = put nodes.cells root (record {
          block = record { addr = start; size = heap_size; is_marked = false };
          left = 0;
          right = 0;
        });
        head = nodes.head;
      };
      free_root = root;
      occupied_root = 0;
      start = start;
      finish = add64 start heap_size;
    }

-- The remainder of a block that is larger than the object, in a new node.
unfoldable pub allocate_split : ℕ → LargeHeap → ℕ → ℕ → Option (ℕ × LargeHeap)
unfolding get_new_tree_node
allocate_split n s fit object_size =
    let (new_node, nodes) = get_new_tree_node s.nodes in
    let block = (nodes.cells fit).block in
    if new_node == 0
    then (insert_treap n nodes s.free_root fit >>= λ f.
        some (0, record s { nodes = f.nodes; free_root = f.root }))
    else let cut = set_block nodes.cells new_node (record (nodes.cells new_node).block {
      addr = add64 block.addr object_size;
      size = sub64 block.size object_size;
    }) in
      let taken = set_block cut fit (record block { size = object_size }) in
      insert_bst n taken s.occupied_root fit >>= λ (o, cells).
      insert_treap n (record { cells = cells; head = nodes.head }) s.free_root new_node >>= λ f.
      some (block.addr, record s { nodes = f.nodes; free_root = f.root; occupied_root = o })

unfoldable pub allocate_large_object : ℕ → LargeHeap → ℕ → Option (ℕ × LargeHeap)
unfolding first_fit_search
allocate_large_object n s object_size =
    let size = size_with_alignment object_size in
    let fit = first_fit_search s.nodes.cells s.free_root size in
    let res = addr_of s.nodes.cells fit in
    if fit == 0
    then some (0, s)
    else remove_treap n s.nodes.cells s.free_root res >>= λ r.
        let t = record s {
          nodes = record { cells = r.cells; head = s.nodes.head };
          free_root = r.root;
        } in
        if size_of r.cells r.removed == size
        then (insert_bst n r.cells s.occupied_root r.removed >>= λ (o, cells). some (
          res,
          record t { nodes = record { cells = cells; head = s.nodes.head }; occupied_root = o },
        ))
        else allocate_split n t r.removed size
