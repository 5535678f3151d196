-- ===== src/Collector/Calloc.antt =====
-- `gc_calloc` of gc.c.
use native.Mathlib.Decide.{dec_le}
use native.Mathlib.Nat.{le-div_iff_mul-le, mul_comm}
use garbage_collector.Prelude.{
  ℕ, zero, suc, ◌*◌, ◌/◌, ◌%◌, ◌≤◌, ◌<◌, ◌≡◌, ◌∙◌, ap, refl, sym, true, false, ◌&&◌, not, ◌||◌, ◌⊎◌,
  Option, some, ◌==◌, leb, ltb, if◌then◌else◌, size_mod, arith, Bool-cases, inl, inr,
}
use garbage_collector.Memory.Blocks.{within, gc_memset, gc_memset_lem}
use garbage_collector.Nodes.Allocator.{heap_size}
use garbage_collector.Collector.Heap.{Gc}
use garbage_collector.Collector.Interface.{size_max, set_mem, zeroed, gc_malloc, gc_calloc}

guard_tests :
    (q elsize k : ℕ)
    → (elsize ≤ q → k ≤ size_max)
    → (k ≤ size_max → elsize ≤ q)
    → ltb q elsize ≡ leb size_mod k
guard_tests q elsize k to from = elim (dec_le elsize q) [
  | yes h ↦ let small = to h in ground (arith, small)
  | no h ↦ elim (dec_le k size_max) [
    | yes small ↦ absurd (h (from small))
    | no large ↦ ground arith
  ]
]

-- The guard is exact.
overflow_guard :
    (nelem elsize : ℕ)
    → (not (nelem == 0) && ltb (size_max / nelem) elsize) ≡ leb size_mod (elsize * nelem)
overflow_guard zero elsize = ground arith
overflow_guard (suc k) elsize =
    let (to, from) = le-div_iff_mul-le {k = suc k} {x = elsize} {y = size_max} (omega arith) in
    let nz : (suc k == 0) ≡ false = ground arith in
    rw nz (guard_tests (size_max / suc k) elsize (elsize * suc k) to from)

-- The heaps `h` are `g` with the object at `res` zeroed, if there is one.
abbrev pub IsZeroed : ℕ → ℕ → Gc → Gc → Type 0
IsZeroed res size g h =
    (h ≡ set_mem g h.small.mem)
    × ((x : ℕ) → h.small.mem x ≡ (if not (res == 0) && within res size x then 0 else g.small.mem x))

module _ (n : ℕ) (call_service_thread : Gc → Option Gc) where
  -- A request beyond the heap is refused before anything is done.
  gc_malloc-beyond :
      (size : ℕ) (g : Gc) → heap_size < size → gc_malloc n call_service_thread size g ≡ some (0, g)
  unfolding gc_malloc
  gc_malloc-beyond size g h =
      let t : (ltb size 1 || ltb heap_size size) ≡ true = ground arith in rw t refl

  gc_malloc-bounds :
      (size res : ℕ) (g h : Gc)
      → gc_malloc n call_service_thread size g ≡ some (res, h)
      → (res ≡ 0) ⊎ ((1 ≤ size) × (size ≤ heap_size))
  unfolding gc_malloc
  gc_malloc-bounds size res g h e = elim (Bool-cases (ltb size 1 || ltb heap_size size)) [
    | inl t ↦ inl (cc (rw t at e))
    | inr t ↦ inr (ground (arith, t))
  ]

  fills :
      (res size : ℕ) (h : Gc)
      → (out : Gc) × (zeroed size (res, h) ≡ some (res, out)) × IsZeroed res size h out
  fills res size h = elim (Bool-cases (res == 0)) [
    | inl t ↦ let z : res ≡ 0 = ground arith in rw t (h, ground (arith, z), (refl, λ x. refl))
    | inr t ↦ rw t (
      set_mem h (gc_memset res 0 size h.small.mem),
      refl,
      (refl, gc_memset_lem res 0 size h.small.mem),
    )
  ]

  -- For `nelem` elements of `elsize` bytes `gc_calloc` returns what `gc_malloc` does for the exact
  -- product, also where the product does not fit into a `size_t`: then it is `NULL`. If it is not
  -- `NULL`, the product is at least 1 and no more than the size of a heap, and all bytes of the object
  -- are 0 afterwards. Nothing else differs from what `gc_malloc` left.
  pub gc_calloc-gc_malloc :
      (nelem elsize res : ℕ) (g h : Gc)
      → gc_malloc n call_service_thread (nelem * elsize) g ≡ some (res, h)
      → (out : Gc) × (gc_calloc n call_service_thread nelem elsize g ≡ some (res, out))
        × IsZeroed res (nelem * elsize) h out
        × ((res ≡ 0) ⊎ ((1 ≤ nelem * elsize) × (nelem * elsize ≤ heap_size)))
  unfolding gc_calloc
  gc_calloc-gc_malloc nelem elsize res g h e =
      let size = nelem * elsize in
      let bounds = gc_malloc-bounds size res g h e in
      let guard = overflow_guard nelem elsize ∙ ap (leb size_mod) (mul_comm elsize nelem) in
      elim (Bool-cases (leb size_mod size)) [
        | inl over ↦
            let none_given = gc_malloc-beyond size g (ground (arith, over)) in
            let z : res ≡ 0 = cc (none_given, e) in
            (h, rw (guard, over) (sym none_given ∙ e), (refl, λ x. rw z refl), bounds)
        | inr under ↦
            let exact : size % size_mod ≡ size = ground (arith, under) in
            let (out, filled, is) = fills res size h in
            (out, rw (guard, under, exact, e) filled, is, bounds)
      ]
