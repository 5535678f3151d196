-- ===== src/Small/Renewed.antt =====
-- The heap of small objects after `sweep_small_heap` (sweeper/sweep.c), as allocations find it.
use native.Mathlib.Decide.{dec_lt}
use mathlib.Core.Option.{Option, none}
use garbage_collector.Prelude.{
  ℕ, zero, suc, ◌+◌, ◌-◌, ◌*◌, ◌/◌, ◌%◌, ◌^◌, ◌≤◌, ◌<◌, ◌≡◌, ◌≢◌, ◌⊎◌, ◌∙◌, refl, sym, ap, Bool,
  true, false, not, ◌&&◌, [], arith, inl, inr, size_mod, Bool-cases, ◌==◌, ltb, if◌then◌else◌,
}
use garbage_collector.Memory.Words.{Memory, read64, write64, read64_zero}
use garbage_collector.Small.Header.{block_size, block_header_size, words_empty, is_bitmap_empty}
use garbage_collector.Small.Slot.{IsBlock, bit_at}
use garbage_collector.Small.Alloc.{SmallHeap}
use garbage_collector.Small.ScanProof.{AreBytes, write64-byte}
use garbage_collector.Small.Ready.{IsReady, All}
use garbage_collector.Small.Offered.{AreListed, IsEmptyBlock}
use garbage_collector.Small.Core.{AreDifferent, IsInOrder}
use garbage_collector.Small.Sweep.{
  block_node, sweep_block, sweep_blocks, sweep_blocks-start, sweep_small_heap, collect,
  holds_unmarked, holds_marked, IsSwept, sweep_small_heap-IsSwept,
}
use garbage_collector.Small.Init.{clear_cache}

-- An empty bitmap has only clear bits.
words_empty-byte :
    (n : ℕ) (m : Memory) (a k : ℕ) → words_empty n m a ≡ true → k < 8 * n → m (a + k) ≡ 0
unfolding words_empty
words_empty-byte zero m a k e p = absurd (omega arith)
words_empty-byte (suc n) m a k e p =
    let first : read64 m a ≡ 0 = ground (arith, e) in
    let rest : words_empty n m (a + 8) ≡ true = ground (arith, e) in
    elim (dec_lt k 8) [
      | yes q ↦ read64_zero m a first k q
      | no q ↦
          let at : a + 8 + (k - 8) ≡ a + k = omega arith in
          ap m (sym at) ∙ words_empty-byte n m (a + 8) (k - 8) rest (omega arith)
    ]

is_bitmap_empty-bit :
    (m : Memory) (b i : ℕ) → is_bitmap_empty m b ≡ true → i < 512 → bit_at m b i ≡ 0
unfolding is_bitmap_empty
is_bitmap_empty-bit m b i e p =
    rw (words_empty-byte 8 m (b + 16) (i / 8) e (omega arith)) (omega arith)

-- What holds of every node that a test accepts holds of all blocks collected.
pub All-collect :
    (P : ℕ → Type 0) (p : ℕ → Bool) (start n : ℕ)
    → ((i : ℕ) → i < n → p (block_node start i) ≡ true → P (block_node start i))
    → All P (collect p start n)
All-collect P p start zero f = tt
All-collect P p start (suc n) f = elim (Bool-cases (p (block_node start n))) [
  | inl e ↦ rw e (f n (omega arith) e, All-collect P p start n (λ i q. f i (omega arith)))
  | inr e ↦ rw e (All-collect P p start n (λ i q. f i (omega arith)))
]

pub block_node-IsBlock :
    (start n i : ℕ) → start + block_size * n < size_mod → i < n → IsBlock start (block_node start i)
unfolding block_node
block_node-IsBlock start n i fits p = omega arith

block_node-ne : (start i n : ℕ) → i < n → block_node start n ≢ block_node start i
unfolding block_node
block_node-ne start i n p e = omega arith

unmarked-ne-marked :
    (m : Memory) (s a b : ℕ) → holds_marked m s a ≡ true → holds_unmarked m b ≡ true → a ≢ b
unmarked-ne-marked m s a b p q e = elim (Bool-cases (is_bitmap_empty m a)) [
  | inl t ↦ cc (rw t at p)
  | inr t ↦ cc (ap (holds_unmarked m) e)
]

-- A byte of a bitmap is apart from the first two words of each block.
pub bitmap_apart :
    (start i j off : ℕ)
    → 16 ≤ off
    → off < 80
    → (block_node start i + off < block_node start j)
      ⊎ (block_node start j + 16 ≤ block_node start i + off)
unfolding block_node
bitmap_apart start i j off p q = elim (dec_lt i j) [
  | yes h ↦ inl (omega arith)
  | no h ↦ inr (omega arith)
]

AreDifferent-collect : (p : ℕ → Bool) (start k : ℕ) → AreDifferent (collect p start k)
AreDifferent-collect p start zero = tt
AreDifferent-collect p start (suc k) = elim (Bool-cases (p (block_node start k))) [
  | inl e ↦ rw e (
    All-collect (λ b. block_node start k ≢ b) p start k (λ i q t. block_node-ne start i k q),
    AreDifferent-collect p start k,
  )
  | inr e ↦ rw e (AreDifferent-collect p start k)
]

-- The lists of a heap that has been swept.
module _ (start N : ℕ) (m : Memory) (h : SmallHeap) (fits : start + block_size * N < size_mod)
    (w : IsSwept start m N h) where
  IsReady-swept :
      (s i : ℕ)
      → i < N
      → holds_marked m s (block_node start i) ≡ true
      → IsReady start h.mem s (block_node start i)
  IsReady-swept s i p e = record {
    index = 0;
    located = block_node-IsBlock start N i fits p;
    sized = w.sized i p ∙ kept (is_bitmap_empty m (block_node start i)) e;
    slider = w.slider i p ∙ omega arith;
    inside = omega arith;
  }
    where
      kept :
          (empty : Bool)
          → (not empty && read64 m (block_node start i + 8) == s) ≡ true
          → (if empty then 0 else read64 m (block_node start i + 8)) ≡ s
      kept true e = cc
      kept false e = ground (arith, e)

  AreListed-collect :
      (s n : ℕ)
      → n ≤ N
      → AreListed start h.mem h.mem s
          (collect (holds_unmarked m) start N)
          (collect (holds_marked m s) start n)
  AreListed-collect s zero p = tt
  AreListed-collect s (suc n) p = elim (Bool-cases (holds_marked m s (block_node start n))) [
    | inl e ↦ rw e (
      record {
        ready = IsReady-swept s n (omega arith) e;
        same = λ x q r. refl;
        apart =
            All-collect (λ b. block_node start n ≢ b) (holds_marked m s) start n
              (λ i q t. block_node-ne start i n q);
        apart_empty =
            All-collect (λ b. block_node start n ≢ b) (holds_unmarked m) start N
              (λ i q t. unmarked-ne-marked m s (block_node start n) (block_node start i) e t);
      },
      AreListed-collect s n (omega arith),
    )
    | inr e ↦ rw e (AreListed-collect s n (omega arith))
  ]

  IsEmptyBlock-swept :
      (i : ℕ)
      → i < N
      → holds_unmarked m (block_node start i) ≡ true
      → IsEmptyBlock start h.mem h.mem (block_node start i)
  IsEmptyBlock-swept i p e =
      let b = block_node start i in
      let empty : is_bitmap_empty m b ≡ true = e in
      record {
        unused = record {
          located = block_node-IsBlock start N i fits p;
          unmarked = λ k q.
              let at : b + 16 + k / 8 ≡ b + (16 + k / 8) = omega arith in
              let byte : h.mem (b + 16 + k / 8) ≡ m (b + 16 + k / 8) =
                ap h.mem at
                ∙ w.others (b + (16 + k / 8))
                    (λ j r. bitmap_apart start i j (16 + k / 8) (omega arith) (omega arith))
                ∙ ap m (sym at) in
              ap (λ v. v / 2 ^ (k % 8) % 2) byte ∙ is_bitmap_empty-bit m b k empty q;
        };
        same = λ x q r. refl;
      }

  IsInOrder-swept :
      h.start ≡ start → AreBytes h.mem → ((s : ℕ) → s ≤ 2008 → h.cache s ≡ none) → IsInOrder h
  IsInOrder-swept e bytes none_cached = record {
    bytes = bytes;
    listed = λ s p q. rw (e, w.empty, w.listed s) (AreListed-collect s N (omega arith));
    empties =
        rw (e, w.empty)
          (All-collect (IsEmptyBlock start h.mem h.mem) (holds_unmarked m) start N
            IsEmptyBlock-swept);
    cached = λ s b p q ne f. cc (none_cached s q, f);
    different = rw w.empty (AreDifferent-collect (holds_unmarked m) start N);
  }

sweep_block-AreBytes : (h : SmallHeap) (b : ℕ) → AreBytes h.mem → AreBytes (sweep_block h b).mem
unfolding sweep_block
sweep_block-AreBytes h b bytes =
    let m = write64 h.mem b (b + block_header_size) in
    let placed = write64-byte h.mem b (b + block_header_size) bytes in
    elim (Bool-cases (is_bitmap_empty m b)) [
      | inl e ↦ rw e (write64-byte m (b + 8) 0 placed)
      | inr e ↦ rw e placed
    ]

sweep_blocks-AreBytes : (n : ℕ) (h : SmallHeap) → AreBytes h.mem → AreBytes (sweep_blocks n h).mem
unfolding sweep_blocks
sweep_blocks-AreBytes zero h b = b
sweep_blocks-AreBytes (suc n) h b =
    sweep_block-AreBytes (sweep_blocks n h) (block_node h.start n) (sweep_blocks-AreBytes n h b)

pub sweep_small_heap-start : (n : ℕ) (h : SmallHeap) → (sweep_small_heap n h).start ≡ h.start
unfolding sweep_small_heap
sweep_small_heap-start n h = sweep_blocks-start n (record h { empty = []; segreg = λ s. [] })

sweep_small_heap-AreBytes :
    (n : ℕ) (h : SmallHeap) → AreBytes h.mem → AreBytes (sweep_small_heap n h).mem
unfolding sweep_small_heap
sweep_small_heap-AreBytes n h b =
    sweep_blocks-AreBytes n (record h { empty = []; segreg = λ s. [] }) b

sweep_block-cache : (h : SmallHeap) (b : ℕ) → (sweep_block h b).cache ≡ h.cache
unfolding sweep_block
sweep_block-cache h b =
    let m = write64 h.mem b (b + block_header_size) in
    elim (Bool-cases (is_bitmap_empty m b)) [ inl e ↦ rw e refl | inr e ↦ rw e refl ]

sweep_blocks-cache : (n : ℕ) (h : SmallHeap) → (sweep_blocks n h).cache ≡ h.cache
unfolding sweep_blocks
sweep_blocks-cache zero h = refl
sweep_blocks-cache (suc n) h =
    sweep_block-cache (sweep_blocks n h) (block_node h.start n) ∙ sweep_blocks-cache n h

sweep_small_heap-cache : (n : ℕ) (h : SmallHeap) → (sweep_small_heap n h).cache ≡ h.cache
unfolding sweep_small_heap
sweep_small_heap-cache n h = sweep_blocks-cache n (record h { empty = []; segreg = λ s. [] })

clear_cache-cache : (h : SmallHeap) (s : ℕ) → s ≤ 2008 → (clear_cache h).cache s ≡ none
unfolding clear_cache
clear_cache-cache h s p = let t : ltb s 2009 ≡ true = ground arith in rw t refl

-- A heap of small objects as the sweeper finds it: the cache was cleared, as `handler` does, and
-- then objects were marked in the memory.
abbrev pub collectable : SmallHeap → Memory → SmallHeap
collectable h m = record (clear_cache h) { mem = m }

pub clear_cache-start : (h : SmallHeap) → (clear_cache h).start ≡ h.start
unfolding clear_cache
clear_cache-start h = refl

-- A collection makes the small heap ready for allocations again. In a heap of `n` blocks that ends
-- below 2^64, whose cache was cleared and whose memory holds bytes: after the sweep, for every size up
-- to 2008, the blocks in the list of the size are different, laid out for objects of that size and with
-- their slider in place, the empty blocks are different and have no mark set, no block is in two lists,
-- and the cache names no block for the size.
pub sweep_small_heap-IsInOrder :
    (n : ℕ) (h : SmallHeap) (m : Memory)
    → h.start + block_size * n < size_mod
    → AreBytes m
    → IsInOrder (sweep_small_heap n (collectable h m))
      × ((s : ℕ) → s ≤ 2008 → (sweep_small_heap n (collectable h m)).cache s ≡ none)
sweep_small_heap-IsInOrder n h m fits bytes =
    let k = collectable h m in
    let t = sweep_small_heap n k in
    let cleared : (s : ℕ) → s ≤ 2008 → t.cache s ≡ none = λ s p.
      ap (λ (c : ℕ → Option ℕ). c s) (sweep_small_heap-cache n k) ∙ clear_cache-cache h s p in
    let ends : k.start + block_size * n < size_mod = omega (arith, clear_cache-start h) in
    (
      IsInOrder-swept k.start n m t ends (sweep_small_heap-IsSwept n k ends)
          (sweep_small_heap-start n k) (sweep_small_heap-AreBytes n k bytes) cleared,
      cleared,
    )
