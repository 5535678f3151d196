-- ===== src/Small/Init.antt =====
-- `__init_small_allocator` and `clear_cache` of allocator/small-allocator.c. `HEAP_SIZE` is a
-- multiple of `BLOCK_SIZE`, and `n` stands for `BLOCKS_COUNT`.
use mathlib.Core.Option.{none}
use garbage_collector.Prelude.{ℕ, zero, suc, ◌+◌, ◌-◌, ◌^◌, List, [], ◌∷◌, ◌==◌, ltb, if◌then◌else◌}
use garbage_collector.Memory.Words.{Memory, write64}
use garbage_collector.Small.Header.{block_header_size, max_object_size}
use garbage_collector.Small.Alloc.{SmallHeap}
use garbage_collector.Small.Sweep.{block_node}

-- What `mmap` answers when it fails.
abbrev pub map_failed : ℕ
map_failed = 2 ^ 64 - 1

-- The sliders after the first `n` rounds of the loop over `NODES_LIST`.
unfoldable pub init_sliders : ℕ → ℕ → Memory → Memory
unfolding write64 block_node
init_sliders zero start m = m
init_sliders (suc n) start m =
    let b = block_node start n in write64 (init_sliders n start m) b (b + block_header_size)

-- The blocks of the nodes from number `i` on, as `next_node` links them; `n` of them are left.
unfoldable pub node_list : ℕ → ℕ → ℕ → List ℕ
unfolding block_node
node_list zero i start = []
node_list (suc n) i start = block_node start i ∷ node_list n (i + 1) start

-- Where `mmap` answers, and the memory with the pages that it gives.
unfoldable pub init_small_allocator : ℕ → ℕ → Memory → SmallHeap
unfolding init_sliders node_list
init_small_allocator n start m =
    let failed = start == map_failed in
    record {
      start = start;
      mem = if failed then m else init_sliders n start m;
      segreg = λ s. [];
      empty = if failed then [] else node_list n 0 start;
      cache = λ s. none;
    }

unfoldable pub clear_cache : SmallHeap → SmallHeap
clear_cache h = record h { cache = λ i. if ltb i (max_object_size + 1) then none else h.cache i }
