-- ===== src/Collector/Malloc.antt =====
-- `gc_malloc` of gc.c for small objects, with the collection that it may start.
use native.Mathlib.Decide.{dec_lt}
use mathlib.Core.Path.{subst}
use garbage_collector.Prelude.{
  ℕ, zero, suc, ◌+◌, ◌*◌, ◌≤◌, ◌<◌, ◌≡◌, ◌≢◌, ◌∙◌, inl, inr, refl, sym, Bool, true, false,
  Bool-cases, ◌&&◌, ◌||◌, Option, some, [], ◌==◌, leb, ltb, arith, size_mod,
}
use garbage_collector.Memory.Words.{Memory}
use garbage_collector.Small.Header.{block_size, is_bitmap_empty}
use garbage_collector.Small.Alloc.{SmallHeap, allocate_small_object}
use garbage_collector.Small.ScanProof.{AreBytes}
use garbage_collector.Small.Offered.{IsSearchable}
use garbage_collector.Small.AllocProof.{IsHandedOut, allocate_small_object-IsHandedOut}
use garbage_collector.Small.Sweep.{
  block_node, collect, holds_unmarked, sweep_small_heap, sweep_small_heap-IsSwept,
}
use garbage_collector.Small.Core.{IsSearchable-IsInOrder}
use garbage_collector.Small.Renewed.{
  collectable, clear_cache-start, sweep_small_heap-start, sweep_small_heap-IsInOrder,
}
use garbage_collector.Collector.Heap.{Gc, allocate_new_object}
use garbage_collector.Collector.Interface.{gc_malloc, retry}

IsHandedOut-ne : {start s addr : ℕ} {old m : Memory} → IsHandedOut start old m s addr → addr ≢ 0
IsHandedOut-ne o z = omega (arith, o.slot.at)

-- An allocation of a small object.
abbrev pub attempt : Gc → ℕ → Gc
attempt g size = record g { small = (allocate_small_object g.small size).0 }

allocate_new_object-small :
    (n size : ℕ) (g : Gc)
    → 1 ≤ size
    → size ≤ 2008
    → allocate_new_object n size g ≡ some ((allocate_small_object g.small size).1, attempt g size)
unfolding allocate_new_object
allocate_new_object-small n size g p q =
    let t : (leb 1 size && leb size 2008) ≡ true = ground arith in rw t refl

collect-nil :
    (p : ℕ → Bool) (start n : ℕ)
    → collect p start n ≡ []
    → (i : ℕ) → i < n
    → p (block_node start i) ≡ false
collect-nil p start zero e i h = absurd (omega arith)
collect-nil p start (suc n) e i h = elim (Bool-cases (p (block_node start n))) [
  | inl t ↦ cc (rw t at e)
  | inr t ↦ elim (dec_lt i n) [
    | yes q ↦ collect-nil p start n (rw t at e) i q
    | no q ↦ let same : i ≡ n = omega arith in rw same t
  ]
]

-- The outcome `res` of an allocation with the heap `m` after it, for a heap `g` before it, or the heap
-- of `n` blocks `k`, marked and then swept.
pub data Outcome (g k : SmallHeap) (n size res : ℕ) (m : Memory) : Type 0 where
  at_once : IsHandedOut g.start g.mem m size res → Outcome g k n size res m
  collected :
      g.empty ≡ []
      → IsHandedOut k.start (sweep_small_heap n k).mem m size res
      → Outcome g k n size res m
  exhausted :
      res ≡ 0
      → g.empty ≡ []
      → ((i : ℕ) → i < n → is_bitmap_empty k.mem (block_node k.start i) ≡ false)
      → Outcome g k n size res m

swept-exhausted :
    (n : ℕ) (k : SmallHeap)
    → k.start + block_size * n < size_mod
    → (sweep_small_heap n k).empty ≡ []
    → (i : ℕ) → i < n
    → is_bitmap_empty k.mem (block_node k.start i) ≡ false
swept-exhausted n k fits e =
    collect-nil (holds_unmarked k.mem) k.start n (sym (sweep_small_heap-IsSwept n k fits).empty ∙ e)

-- An allocation from the swept heap.
second_attempt :
    (g k : SmallHeap) (n size : ℕ)
    → 1 ≤ size
    → size ≤ 2008
    → g.empty ≡ []
    → k.start + block_size * n < size_mod
    → IsSearchable (sweep_small_heap n k) size
    → let (h', res) = allocate_small_object (sweep_small_heap n k) size in
      Outcome g k n size res h'.mem
second_attempt g k n size least most none_left fits ready =
    let t = sweep_small_heap n k in
    elim (allocate_small_object-IsHandedOut t size least most ready) [
      | inr o ↦ collected none_left (
          subst
            (λ z.
              IsHandedOut z t.mem (allocate_small_object t size).0.mem size
                (allocate_small_object t size).1)
            (sweep_small_heap-start n k) o)
      | inl (z, none_again) ↦ exhausted z none_left (swept-exhausted n k fits none_again)
    ]

-- The first attempt, and the second one if it failed.
module _ (fuel size : ℕ) (call_service_thread : Gc → Option Gc) (least : 1 ≤ size)
    (most : size ≤ 2008) where
  pub gc_malloc-at_once :
      (g : Gc)
      → (allocate_small_object g.small size).1 ≢ 0
      → gc_malloc fuel call_service_thread size g
        ≡ some ((allocate_small_object g.small size).1, attempt g size)
  unfolding gc_malloc retry
  gc_malloc-at_once g nz =
      let t : (ltb size 1 || ltb 536870912 size) ≡ false = ground arith in
      let u : ((allocate_small_object g.small size).1 == 0) ≡ false = ground (arith, nz) in
      rw (t, allocate_new_object-small fuel size g least most, u) refl

  gc_malloc-again :
      (g h : Gc)
      → (allocate_small_object g.small size).1 ≡ 0
      → call_service_thread (attempt g size) ≡ some h
      → gc_malloc fuel call_service_thread size g
        ≡ some ((allocate_small_object h.small size).1, attempt h size)
  unfolding gc_malloc retry
  gc_malloc-again g h z called =
      let t : (ltb size 1 || ltb 536870912 size) ≡ false = ground arith in
      let u : ((allocate_small_object g.small size).1 == 0) ≡ true = ground (arith, z) in
      rw (t, allocate_new_object-small fuel size g least most, u, called)
        (allocate_new_object-small fuel size h least most)

  -- `gc_malloc` of 1 to 2008 bytes, in a small heap in which the size can be searched for, where
  -- `call_service_thread` leaves a heap of `n` blocks that was swept after its cache had been cleared
  -- and objects had been marked. It ends. Either the object is handed out at once; or there was no empty
  -- block, and it is handed out from the swept heap; or it is `NULL`, and then each of the `n` blocks
  -- holds a marked object.
  pub gc_malloc-Outcome :
      (g h : Gc) (j : SmallHeap) (m : Memory) (n : ℕ)
      → IsSearchable g.small size
      → call_service_thread (attempt g size) ≡ some h
      → h.small ≡ sweep_small_heap n (collectable j m)
      → j.start + block_size * n < size_mod
      → AreBytes m
      → (res : ℕ) × (out : Gc) × (gc_malloc fuel call_service_thread size g ≡ some (res, out))
        × Outcome g.small (collectable j m) n size res out.small.mem
  gc_malloc-Outcome g h j m n ready called swept fits bytes =
      elim (allocate_small_object-IsHandedOut g.small size least most ready) [
        | inr o ↦ (
          (allocate_small_object g.small size).1,
          attempt g size,
          gc_malloc-at_once g (IsHandedOut-ne o),
          at_once o,
        )
        | inl (z, none_left) ↦ (
          (allocate_small_object h.small size).1,
          attempt h size,
          gc_malloc-again g h z called,
          rw swept (
              second_attempt g.small (collectable j m) n size least most none_left
                (omega (arith, clear_cache-start j))
                (IsSearchable-IsInOrder (sweep_small_heap n (collectable j m)) size least most
                  (sweep_small_heap-IsInOrder n j m fits bytes).0)),
        )
      ]
