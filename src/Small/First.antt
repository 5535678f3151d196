-- ===== src/Small/First.antt =====
-- The heap of small objects after `__init_small_allocator` (allocator/small-allocator.c), and the
-- first allocation from it.
use mathlib.Core.Option.{none}
use garbage_collector.Prelude.{
  ℕ, zero, suc, ◌+◌, ◌*◌, ◌/◌, ◌%◌, ◌^◌, ◌≤◌, ◌<◌, ◌≡◌, ◌≢◌, ◌⊎◌, ◌∙◌, refl, ap, false, [], arith,
  inl, inr, size_mod, ◌==◌,
}
use garbage_collector.Memory.Words.{Memory, write64_outside}
use garbage_collector.Small.Header.{block_size}
use garbage_collector.Small.Alloc.{SmallHeap, allocate_small_object}
use garbage_collector.Small.ScanProof.{AreBytes, write64-byte}
use garbage_collector.Small.Ready.{All}
use garbage_collector.Small.Offered.{IsEmptyBlock, IsSearchable}
use garbage_collector.Small.AllocProof.{IsHandedOut, allocate_small_object-IsHandedOut}
use garbage_collector.Small.Core.{AreDifferent, IsInOrder}
use garbage_collector.Small.Sweep.{block_node}
use garbage_collector.Small.Renewed.{block_node-IsBlock, bitmap_apart}
use garbage_collector.Small.Init.{map_failed, init_sliders, node_list, init_small_allocator}

init_sliders-AreBytes : (n start : ℕ) (m : Memory) → AreBytes m → AreBytes (init_sliders n start m)
unfolding init_sliders
init_sliders-AreBytes zero start m b = b
init_sliders-AreBytes (suc n) start m b =
    write64-byte (init_sliders n start m) (block_node start n) (block_node start n + 80)
      (init_sliders-AreBytes n start m b)

-- The loop leaves the bitmaps as they are.
init_sliders-bitmap :
    (n start i off : ℕ) (m : Memory)
    → 16 ≤ off
    → off < 80
    → init_sliders n start m (block_node start i + off) ≡ m (block_node start i + off)
unfolding init_sliders
init_sliders-bitmap zero start i off m p q = refl
init_sliders-bitmap (suc n) start i off m p q =
    write64_outside (init_sliders n start m) (block_node start n) (block_node start n + 80)
      (block_node start i + off) (aside (bitmap_apart start i n off p q))
    ∙ init_sliders-bitmap n start i off m p q
  where
    aside :
        (block_node start i + off < block_node start n)
          ⊎ (block_node start n + 16 ≤ block_node start i + off)
        → (block_node start i + off < block_node start n)
          ⊎ (block_node start n + 8 ≤ block_node start i + off)
    aside (inl h) = inl h
    aside (inr h) = inr (omega arith)

in_heap :
    (start n i off : ℕ)
    → i < n
    → off < 80
    → (start ≤ block_node start i + off) × (block_node start i + off < start + block_size * n)
unfolding block_node
in_heap start n i off p q = omega arith

module _ (start N : ℕ) (m : Memory) (fits : start + block_size * N < size_mod) (bytes : AreBytes m)
    (zeroed : (x : ℕ) → start ≤ x → x < start + block_size * N → m x ≡ 0) where
  IsEmptyBlock-init :
      (i : ℕ)
      → i < N
      → let k = init_sliders N start m in IsEmptyBlock start k k (block_node start i)
  IsEmptyBlock-init i p =
      let b = block_node start i in
      record {
        unused = record {
          located = block_node-IsBlock start N i fits p;
          unmarked = λ j q.
              let at : b + 16 + j / 8 ≡ b + (16 + j / 8) = omega arith in
              let byte : init_sliders N start m (b + 16 + j / 8) ≡ 0 =
                ap (init_sliders N start m) at
                ∙ init_sliders-bitmap N start i (16 + j / 8) m (omega arith) (omega arith)
                ∙ zeroed (b + (16 + j / 8)) (in_heap start N i (16 + j / 8) p (omega arith)).0
                    (in_heap start N i (16 + j / 8) p (omega arith)).1 in
              ap (λ v. v / 2 ^ (j % 8) % 2) byte ∙ omega arith;
        };
        same = λ x q r. refl;
      }

  All-node_list :
      (n i : ℕ)
      → i + n ≡ N
      → let k = init_sliders N start m in All (IsEmptyBlock start k k) (node_list n i start)
  unfolding node_list
  All-node_list zero i e = tt
  All-node_list (suc n) i e =
      (IsEmptyBlock-init i (omega arith), All-node_list n (i + 1) (omega arith))

block_node_later : (start k i : ℕ) → k < i → block_node start k ≢ block_node start i
unfolding block_node
block_node_later start k i p e = omega arith

-- The nodes from number `i` on are behind the node with a lower number.
All-node_list_later :
    (n k i start : ℕ) → k < i → All (λ c. block_node start k ≢ c) (node_list n i start)
unfolding node_list
All-node_list_later zero k i start p = tt
All-node_list_later (suc n) k i start p =
    (block_node_later start k i p, All-node_list_later n k (i + 1) start (omega arith))

node_list-AreDifferent : (n i start : ℕ) → AreDifferent (node_list n i start)
unfolding node_list
node_list-AreDifferent zero i start = tt
node_list-AreDifferent (suc n) i start =
    (All-node_list_later n i (i + 1) start (omega arith), node_list-AreDifferent n (i + 1) start)

mapped : (start n : ℕ) → 1 ≤ n → start + block_size * n < size_mod → (start == map_failed) ≡ false
mapped start n one fits = ground arith

node_list-nil : (n i start : ℕ) → 1 ≤ n → node_list n i start ≢ []
unfolding node_list
node_list-nil zero i start p e = absurd (omega arith)
node_list-nil (suc n) i start p e = cc

init_small_allocator-mapped :
    (n start : ℕ) (m : Memory)
    → (start == map_failed) ≡ false
    → init_small_allocator n start m ≡ record {
      start = start;
      mem = init_sliders n start m;
      segreg = λ s. [];
      empty = node_list n 0 start;
      cache = λ s. none;
    }
unfolding init_small_allocator
init_small_allocator-mapped n start m e = rw e refl

pub init_small_allocator-IsInOrder :
    (n start : ℕ) (m : Memory)
    → 1 ≤ n
    → start + block_size * n < size_mod
    → AreBytes m
    → ((x : ℕ) → start ≤ x → x < start + block_size * n → m x ≡ 0)
    → (init_small_allocator n start m).start ≡ start × IsInOrder (init_small_allocator n start m)
init_small_allocator-IsInOrder n start m one fits bytes zeroed =
    rw (init_small_allocator-mapped n start m (mapped start n one fits)) (
      refl,
      record {
        bytes = init_sliders-AreBytes n start m bytes;
        listed = λ t p q. tt;
        empties = All-node_list start n m fits bytes zeroed n 0 (omega arith);
        cached = λ t b p q ne e. cc e;
        different = node_list-AreDifferent n 0 start;
      },
    )

-- If `mmap` gives pages of zeros that end below 2^64, with at least one block, then after
-- `__init_small_allocator` an allocation of any size from 1 to 2008 finds what it relies on, and
-- the first one succeeds: it hands out an unmarked object of a block for that size, behind which the
-- slider of the block stands afterwards.
pub allocate_small_object-init_small_allocator :
    (n start : ℕ) (m : Memory) (s : ℕ)
    → 1 ≤ n
    → start + block_size * n < size_mod
    → AreBytes m
    → ((x : ℕ) → start ≤ x → x < start + block_size * n → m x ≡ 0)
    → 1 ≤ s
    → s ≤ 2008
    → let h = init_small_allocator n start m in
      let (h', addr) = allocate_small_object h s in
      IsSearchable h s × IsHandedOut start h.mem h'.mem s addr
allocate_small_object-init_small_allocator n start m s one fits bytes zeroed p q =
    rw (init_small_allocator-mapped n start m (mapped start n one fits)) (
      let h : SmallHeap = record {
        start = start;
        mem = init_sliders n start m;
        segreg = λ s. [];
        empty = node_list n 0 start;
        cache = λ s. none;
      } in
      let ready : IsSearchable h s = record {
        bytes = init_sliders-AreBytes n start m bytes;
        listed = tt;
        empties = All-node_list start n m fits bytes zeroed n 0 (omega arith);
        cached = λ b e. cc e;
      } in
      (
        ready,
        elim (allocate_small_object-IsHandedOut h s p q ready) [
          | inl (z, none_left) ↦ absurd (node_list-nil n 0 start one none_left)
          | inr o ↦ o
        ],
      ))
