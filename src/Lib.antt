-- ===== src/Lib.antt =====
-- A conservative mark and sweep garbage collector for C programs.
--
-- The program keeps two heaps. Objects of up to 2008 bytes live in the small heap, in blocks of
-- 4096 bytes (allocator/small-allocator.c), each with a bitmap of marks (allocator/bitmap.c).
-- Larger ones live in the large heap, whose free and occupied stretches are two binary search trees
-- by address (allocator/large-allocator.c, allocator/binary-search-tree.c, allocator/treap.c). The
-- marker (marker/) finds the objects that are reachable, through allocator/object.c and a stack of
-- its own (marker/stack.c), and the sweeper (sweeper/sweep.c) takes the others back. gc.c is the
-- interface, memops/gc_mem.c its memory routines, mt-safety/ stops the threads of the program
-- meanwhile.
--
-- Memory.Words is memory as bytes, with the words that the program reads and writes through
-- `size_t*`; Memory.Blocks is memops/gc_mem.c. Both loops of a routine run on `count + 1` rounds of
-- fuel, more than they can make.
--
-- Large.Tree is the node type of allocator/large-allocator.h. Large.Bst has `insert_bst`,
-- `search_bst`, `ext_search_bst` and `remove_bst`; Large.Treap has the functions of
-- allocator/treap.c, the list of spare nodes as its length, and `cleanup_bst`. A pointer to a node
-- is a tree as a value, and an assignment through a pointer is a new value: this is what the
-- program does where no node is reached by two paths. `cleanup_bst` can meet a node that is in both
-- trees, since `remove_treap` hands nodes out with their old child pointers (Nodes.Allocate); what
-- it does to them then is not modelled, and the results on it are about trees with no byte in
-- common. Large.Layout states where the blocks of a tree may lie; Large.Search, Remove, Merge,
-- Ends, Join, Insert, Heap, Occupied, Cleanup, Reclaim and Live are about one routine each.
--
-- Small.Header is the header of a block with allocator/bitmap.c, and Small.Alloc the functions of
-- allocator/small-allocator.c for one thread; a linked list of nodes is the list of their block
-- addresses, and the spin locks are left out. The inner loop of `allocate_small_object` runs on 512
-- rounds of fuel, where a block has at most 502 objects; the outer one recurs on the list of
-- blocks. Small.Sweep is `sweep_small_heap`, and Small.Init has `__init_small_allocator` and
-- `clear_cache`, where the number of blocks is an argument. Small.Slot, Bits, Marks, Ready,
-- ScanProof, Offered and AllocProof carry the proofs; Small.Renewed is about the heap after a
-- sweep, Small.First about the first allocation; Small.Core, Clearing, Fresh, Found, Taken, Keeps
-- and Within are about the other blocks while one is allocated, and Small.Produced about all heaps
-- that initialisation, allocations and collections lead to.
--
-- Nodes.Store and Nodes.Treap are the same two files on nodes in memory, with pointers, and
-- Nodes.Allocator is allocator/large-allocator.c. A pointer is a number; the recursions run on fuel
-- for their depth. Nodes.Shape says which nodes make up a tree, Nodes.Insert is about `insert_bst`,
-- Nodes.Allocate and Split about `allocate_large_object`.
--
-- Object.Heaps is allocator/object.c over both heaps. Object.Cells, Trees and Places say what
-- `get_object` finds, Object.TreeMark, BitmapMark and Effect what `mark_object` changes. The memory
-- of the small heap is the memory of the process: the words of large objects, of stacks and of data
-- segments are read from it too.
--
-- Marker.Stack is marker/stack.c and Marker.Marking is marker/marking.c, where the answers of
-- `malloc` and `realloc`, the linker's symbols and the extents of the threads' stacks are
-- arguments. A loop over words recurs on its rounds; `closure` runs on fuel, and the number of
-- objects that are unmarked or on the stack, which is at most the end of the heaps, is enough.
-- Marker.Work counts these, Marker.State says what a marker at work keeps, Marker.Visit is about
-- one loop over words, Marker.Closure about `closure`, Marker.Reach about one segment, Marker.Whole
-- about `mark`. The capacity of the stack is an int; no push overflows it while at most 2^30
-- objects are unmarked, and both heaps together have 2^30 bytes. Marker.Stale is about marks that
-- are set before.
--
-- Threads.Storage is mt-safety/threads-storage.c on a memory of list cells, and the loop of
-- `stop_the_world` over all threads, on fuel above their number. Threads.Chain says that the cells
-- are a doubly linked list of the threads, Threads.Removal and Threads.Destroy are about taking one
-- cell out of it, Threads.Teardown about `__destroy_storage`, whose loop runs on fuel above the
-- number of cells. The lock of the file makes a call one step.
--
-- Collector.Heap is allocator/allocator.c over the small heap and the large one on nodes, and
-- Collector.Interface is gc.c. What `call_service_thread` makes of the heaps is an argument there,
-- since the service thread and all others work on them meanwhile; object.c reads the trees of the
-- large heap as values. Collector.Malloc, Calloc and Realloc are about one function each.
-- Collector.Sweep is the sweep of both heaps (sweeper/sweep.c), with the trees as values.
-- `SEGREG_LIST` has an entry for every size there.
--
-- Sync is mt-safety/mt-safety.c and mt-safety/stop-the-world.c for any number of threads:
-- Sync.World has where each thread and the service thread stand, and the steps, in any order. A
-- lock is held by the threads that stand behind it, so that a step into it has as its condition
-- that no other is there; a barrier opens when all have arrived; a signal is pending until
-- `handler` is entered, and is not delivered inside of it. The storage of threads is the set of
-- threads that have a cell; a thread runs on behind `destroy_cell`, where a signal that it was sent
-- before can still be delivered. `pthread_cond_wait` returns after the broadcast, or, if the
-- relation is told so, at any time. Sync.Kept and Sync.Invariant have what holds in each reachable
-- state, Sync.Calls and Sync.Leaving are about `call_service_thread`, Sync.Stuck about states in
-- which no collection comes to its end.
--
-- Logging.Log is logging/log.c in a build with `LOG` and without `FL`. A line is a value, and the
-- number of its characters, which sprintf answers, a parameter. Logging.Buffer and Calls are about
-- the buffer, Logging.Accounts about the counters.
--
-- Addresses and sizes are natural numbers. The sums of a block's address and size and the
-- differences of addresses wrap at 2^64 where the program can meet the bound (`add64`, `sub64`).
--
-- Not modelled: `cleanup_bst` where the two trees share nodes; the destructors,
-- `__destroy_small_allocator`, `__destroy_large_allocator`, and `__destroy_mt_safety` with the end
-- of the service thread; the registration of `handler` with sigaction; the choice of the log file's
-- name; and the calls of `log` in the other files, since nothing that is modelled reads what they
-- write. utils.c prints a bitmap. The programs of testing_system/ exercise the library.
pub mod Prelude
pub mod Memory
pub mod Small
pub mod Large
pub mod Object
pub mod Marker
pub mod Nodes
pub mod Collector
pub mod Sync
pub mod Threads
pub mod Logging
