-- ===== src/Collector/Interface.antt =====
-- gc.c. The service thread works on the same heaps, so what `call_service_thread` makes of them is an
-- argument; `none` is fuel that has run out, or a failed assertion.
use garbage_collector.Prelude.{
  ℕ, ◌-◌, ◌*◌, ◌/◌, ◌%◌, ◌&&◌, ◌||◌, not, Option, none, some, ◌>>=◌, ◌==◌, ltb, if◌then◌else◌,
  size_mod,
}
use garbage_collector.Memory.Words.{Memory}
use garbage_collector.Memory.Blocks.{gc_memset, gc_memcpy}
use garbage_collector.Object.Heaps.{get_object, get_object_size}
use garbage_collector.Nodes.Allocator.{heap_size}
use garbage_collector.Collector.Heap.{Gc, allocate_new_object, heaps_of}

-- `SIZE_MAX`
abbrev pub size_max : ℕ
size_max = size_mod - 1

abbrev pub set_mem : Gc → Memory → Gc
set_mem g m = record g { small = record g.small { mem = m } }

-- What `gc_calloc` makes of the answer of `gc_malloc`.
abbrev pub zeroed : ℕ → ℕ × Gc → Option (ℕ × Gc)
zeroed size (res, g) =
    if res == 0 then some (0, g) else some (res, set_mem g (gc_memset res 0 size g.small.mem))

-- What `gc_realloc` makes of it.
abbrev pub copied : ℕ → ℕ → ℕ × Gc → Option (ℕ × Gc)
copied n obj (res, g) =
    if res == 0
    then some (0, g)
    else get_object_size (heaps_of n g) obj >>= λ count.
        some (res, set_mem g (gc_memcpy res obj count g.small.mem))

module _ (n : ℕ) (call_service_thread : Gc → Option Gc) where
  -- The second attempt, if the first one gave `NULL`.
  unfoldable pub retry : ℕ → ℕ × Gc → Option (ℕ × Gc)
  retry size (res, g) =
      if res == 0 then (call_service_thread g >>= allocate_new_object n size) else some (res, g)

  unfoldable pub gc_malloc : ℕ → Gc → Option (ℕ × Gc)
  unfolding retry
  gc_malloc size g =
      if ltb size 1 || ltb heap_size size
      then some (0, g)
      else allocate_new_object n size g >>= retry size

  unfoldable pub gc_calloc : ℕ → ℕ → Gc → Option (ℕ × Gc)
  gc_calloc nelem elsize g =
      let size = nelem * elsize % size_mod in
      if not (nelem == 0) && ltb (size_max / nelem) elsize
      then some (0, g)
      else gc_malloc size g >>= zeroed size

  abbrev resized : ℕ → Gc → Option ℕ → Option (ℕ × Gc)
  resized size g none = some (0, g)
  resized size g (some obj) = gc_malloc size g >>= copied n obj

  unfoldable pub gc_realloc : ℕ → ℕ → Gc → Option (ℕ × Gc)
  gc_realloc memblock size g =
      if memblock == 0
      then gc_malloc size g
      else resized size g (get_object (heaps_of n g) memblock)
