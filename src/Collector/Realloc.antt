-- ===== src/Collector/Realloc.antt =====
-- `gc_realloc` of gc.c.
use garbage_collector.Prelude.{
  ℕ, ◌+◌, ◌-◌, ◌≤◌, ◌≡◌, ◌≢◌, ◌⊎◌, refl, false, Option, some, ◌==◌, if◌then◌else◌, arith,
}
use garbage_collector.Memory.Blocks.{within, gc_memcpy, gc_memcpy_lem}
use garbage_collector.Object.Heaps.{get_object, get_object_size}
use garbage_collector.Collector.Heap.{Gc, heaps_of}
use garbage_collector.Collector.Interface.{set_mem, gc_malloc, gc_realloc}

module _ (n : ℕ) (call_service_thread : Gc → Option Gc) where
  -- For a pointer into an object `obj`, where `gc_malloc` gives a new place `res` that does not begin
  -- inside the old object: `gc_realloc` returns `res`, and exactly as many bytes from it on as the old
  -- object has are written, with the bytes of the old object, whether or not the size that is asked
  -- for is as large.
  pub gc_realloc-get_object :
      (memblock obj size res count : ℕ) (g h : Gc)
      → memblock ≢ 0
      → get_object (heaps_of n g) memblock ≡ some obj
      → gc_malloc n call_service_thread size g ≡ some (res, h)
      → res ≢ 0
      → get_object_size (heaps_of n h) obj ≡ some count
      → (res ≤ obj) ⊎ (obj + count ≤ res)
      → (out : Gc) × (gc_realloc n call_service_thread memblock size g ≡ some (res, out))
        × (out ≡ set_mem h out.small.mem)
        × ((x : ℕ)
            → out.small.mem x
              ≡ (if within res count x then h.small.mem (obj + (x - res)) else h.small.mem x))
  unfolding gc_realloc
  gc_realloc-get_object memblock obj size res count g h nz found given ok sized apart =
      let t : (memblock == 0) ≡ false = ground arith in
      let u : (res == 0) ≡ false = ground (arith, ok) in
      (
        set_mem h (gc_memcpy res obj count h.small.mem),
        rw (t, found, given, u, sized) refl,
        refl,
        gc_memcpy_lem res obj count h.small.mem apart,
      )
