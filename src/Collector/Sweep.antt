-- ===== src/Collector/Sweep.antt =====
-- `sweep_large_heap` and `sweep` of sweeper/sweep.c, over both heaps. The calls of log are left out. The
-- trees of the large heap are values, as in `cleanup_bst`: this is the code where they share no node.
use mathlib.Core.Path.{subst}
use garbage_collector.Prelude.{
  ℕ, zero, suc, ◌+◌, ◌-◌, ◌*◌, ◌≤◌, ◌<◌, ◌≡◌, ◌∙◌, refl, sym, ap, Bool, true, false, not, ◌&&◌,
  List, [], ◌∷◌, arith, inl, inr, size_mod, Bool-cases, ◌==◌, if◌then◌else◌,
}
use garbage_collector.Memory.Words.{Memory, read64}
use garbage_collector.Large.Tree.{Header, TreeNode, null, node, blocks}
use garbage_collector.Large.Treap.{Roots, cleanup_bst}
use garbage_collector.Large.Layout.{Laid}
use garbage_collector.Large.Heap.{IsHeap}
use garbage_collector.Large.Reclaim.{Disjoint, IsOneSided, IsReclaimed, cleanup_bst-IsReclaimed}
use garbage_collector.Large.Cleanup.{survivors, blocks-cleanup_bst}
use garbage_collector.Small.Header.{block_size, is_bitmap_empty}
use garbage_collector.Small.Alloc.{SmallHeap}
use garbage_collector.Small.Sweep.{
  block_node, sweep_small_heap, collect, holds_unmarked, holds_marked, IsSwept,
  sweep_small_heap-IsSwept, is_bitmap_empty_same,
}
use garbage_collector.Small.Renewed.{bitmap_apart, sweep_small_heap-start}
use garbage_collector.Object.Heaps.{Heaps}

-- The rest of `sweep_large_heap` for the tree at `occupied_root`.
unfoldable sweep_occupied : TreeNode → Heaps → Heaps
unfolding cleanup_bst
sweep_occupied null h = h
sweep_occupied (node b l r) h = record h {
  large = cleanup_bst (node b l r) h.large.free h.large.spare;
}

unfoldable pub sweep_large_heap : Heaps → Heaps
unfolding sweep_occupied
sweep_large_heap h = sweep_occupied h.large.occupied h

-- `n` is `BLOCKS_COUNT`.
unfoldable pub sweep : ℕ → Heaps → Heaps
unfolding sweep_small_heap sweep_large_heap
sweep n h = sweep_large_heap (record h { small = sweep_small_heap n h.small })

small-sweep_occupied : (t : TreeNode) (h : Heaps) → (sweep_occupied t h).small ≡ h.small
unfolding sweep_occupied
small-sweep_occupied null h = refl
small-sweep_occupied (node b l r) h = refl

blocks-sweep_occupied :
    (t : TreeNode) (h : Heaps)
    → h.large.occupied ≡ t
    → blocks (sweep_occupied t h).large.occupied ≡ survivors (blocks t)
unfolding sweep_occupied
blocks-sweep_occupied null h e = ap blocks e
blocks-sweep_occupied (node b l r) h e = blocks-cleanup_bst (node b l r) h.large.free h.large.spare

large-sweep_occupied :
    (t : TreeNode) (h : Heaps)
    → h.large.occupied ≡ t
    → (sweep_occupied t h).large ≡ cleanup_bst t h.large.free h.large.spare
unfolding sweep_occupied cleanup_bst
large-sweep_occupied null h e = ap (λ (o : TreeNode). as_roots o h.large.free h.large.spare) e
  where
    as_roots : TreeNode → TreeNode → ℕ → Roots
    as_roots o f k = record { occupied = o; free = f; spare = k }
large-sweep_occupied (node b l r) h e = refl

small-sweep : (n : ℕ) (h : Heaps) → (sweep n h).small ≡ sweep_small_heap n h.small
unfolding sweep sweep_large_heap
small-sweep n h =
    small-sweep_occupied h.large.occupied (record h { small = sweep_small_heap n h.small })

blocks-sweep :
    (n : ℕ) (h : Heaps) → blocks (sweep n h).large.occupied ≡ survivors (blocks h.large.occupied)
unfolding sweep sweep_large_heap
blocks-sweep n h =
    blocks-sweep_occupied h.large.occupied (record h { small = sweep_small_heap n h.small }) refl

survivors_twice : (bs : List Header) → survivors (survivors bs) ≡ []
survivors_twice [] = refl
survivors_twice (b ∷ bs) = elim (Bool-cases b.is_marked) [
  | inl e ↦ rw e (survivors_twice bs)
  | inr e ↦ rw e (survivors_twice bs)
]

module _ (start n : ℕ) (m : Memory) (h : SmallHeap) (w : IsSwept start m n h) where
  is_bitmap_empty-swept :
      (i : ℕ)
      → i < n
      → is_bitmap_empty h.mem (block_node start i) ≡ is_bitmap_empty m (block_node start i)
  is_bitmap_empty-swept i p =
      is_bitmap_empty_same m h.mem (block_node start i) (λ x q r. byte x q r)
    where
      byte : (x : ℕ) → block_node start i + 16 ≤ x → x < block_node start i + 80 → h.mem x ≡ m x
      byte x q r =
          let off = x - block_node start i in
          let at : block_node start i + off ≡ x = omega arith in
          subst (λ z. h.mem z ≡ m z) at
            (w.others (block_node start i + off)
              (λ j t. bitmap_apart start i j off (omega arith) (omega arith)))

  holds_marked-swept :
      (s i : ℕ)
      → i < n
      → holds_marked h.mem s (block_node start i) ≡ holds_marked m s (block_node start i)
  holds_marked-swept s i p =
      rw (is_bitmap_empty-swept i p, w.sized i p)
        (same (is_bitmap_empty m (block_node start i)) (read64 m (block_node start i + 8)))
    where
      same :
          (empty : Bool) (v : ℕ)
          → (not empty && (if empty then 0 else v) == s) ≡ (not empty && v == s)
      same true v = refl
      same false v = refl

collect_same :
    (p q : ℕ → Bool) (start n : ℕ)
    → ((i : ℕ) → i < n → p (block_node start i) ≡ q (block_node start i))
    → collect p start n ≡ collect q start n
collect_same p q start zero f = refl
collect_same p q start (suc n) f =
    rw (f n (omega arith), collect_same p q start n (λ i r. f i (omega arith))) refl

-- A sweep of a heap that was swept, with its memory as it was left, makes the same lists.
sweep_small_heap-twice :
    (n : ℕ) (h : SmallHeap)
    → h.start + block_size * n < size_mod
    → let k = sweep_small_heap n h in
      ((sweep_small_heap n k).empty ≡ k.empty)
      × ((s : ℕ) → (sweep_small_heap n k).segreg s ≡ k.segreg s)
sweep_small_heap-twice n h fits =
    let k = sweep_small_heap n h in
    let e = sweep_small_heap-start n h in
    let w = sweep_small_heap-IsSwept n h fits in
    let again =
      subst (λ z. IsSwept z k.mem n (sweep_small_heap n k)) e
        (sweep_small_heap-IsSwept n k (omega (arith, e))) in
    (
      again.empty
          ∙ collect_same (holds_unmarked k.mem) (holds_unmarked h.mem) h.start n
              (is_bitmap_empty-swept h.start n h.mem k w)
          ∙ sym w.empty,
      λ s.
          again.listed s
          ∙ collect_same (holds_marked k.mem s) (holds_marked h.mem s) h.start n
              (holds_marked-swept h.start n h.mem k w s)
          ∙ sym (w.listed s),
    )

large-sweep :
    (n : ℕ) (h : Heaps)
    → (sweep n h).large ≡ cleanup_bst h.large.occupied h.large.free h.large.spare
unfolding sweep sweep_large_heap
large-sweep n h =
    large-sweep_occupied h.large.occupied (record h { small = sweep_small_heap n h.small }) refl

-- What the program relies on when it sweeps: no size word of a block is beyond `SEGREG_LIST`; the
-- occupied tree lies strictly inside the window of the free tree, no two free blocks touch, the free
-- tree is in heap order, no byte is in both trees, and no unmarked occupied block has kept blocks on
-- both sides of it in the tree.
pub record IsSweepable (n lo hi low high : ℕ) (h : Heaps) : Type 0 where
  pub sizes : (i : ℕ) → i < n → read64 h.small.mem (block_node h.small.start i + 8) ≤ 2008
  pub small_fits : h.small.start + block_size * n < size_mod
  pub large_fits : hi < size_mod
  pub above : lo < low
  pub below : high < hi
  pub occupied : Laid 0 low high h.large.occupied
  pub free : Laid 1 lo hi h.large.free
  pub heap : IsHeap h.large.free
  pub apart : Disjoint h.large.occupied h.large.free
  pub one_sided : IsOneSided h.large.occupied

-- The sweep of both heaps, of which the small one has `n` blocks with sizes up to 2008 and ends below
-- 2^64. Let the occupied tree lie strictly inside a window of the free tree below 2^64, the free tree
-- have no two touching blocks and be in heap order, no byte be in both trees, and no unmarked occupied
-- block have kept blocks on both sides of it in the tree. Then the small heap is swept block by block, as
-- `IsSwept` says; the free tree covers exactly the bytes that it covered and those of the unmarked
-- blocks, with its layout and heap order, and no node is lost; and the occupied tree has the blocks that
-- were marked, with their marks cleared. A second sweep with no marking between makes the same lists of
-- small blocks, and leaves no occupied block in the large heap.
pub sweep-IsSwept :
    (n lo hi low high : ℕ) (h : Heaps)
    → IsSweepable n lo hi low high h
    → let k = sweep n h in
      let again = sweep n k in
      IsSwept h.small.start h.small.mem n k.small
      × IsReclaimed lo hi h.large.occupied h.large.free h.large.spare k.large
      × (blocks k.large.occupied ≡ survivors (blocks h.large.occupied))
      × (again.small.empty ≡ k.small.empty)
      × ((s : ℕ) → again.small.segreg s ≡ k.small.segreg s)
      × (blocks again.large.occupied ≡ [])
sweep-IsSwept n lo hi low high h i =
    let first = small-sweep n h in
    let (empties, lists) = sweep_small_heap-twice n h.small i.small_fits in
    let second : (sweep n (sweep n h)).small ≡ sweep_small_heap n (sweep_small_heap n h.small) =
      small-sweep n (sweep n h) ∙ ap (sweep_small_heap n) first in
    (
      subst (λ z. IsSwept h.small.start h.small.mem n z) (sym first)
          (sweep_small_heap-IsSwept n h.small i.small_fits),
      subst (IsReclaimed lo hi h.large.occupied h.large.free h.large.spare) (sym (large-sweep n h))
          (cleanup_bst-IsReclaimed lo hi low high h.large.occupied h.large.free h.large.spare
            i.large_fits i.above i.below i.occupied i.free i.heap i.apart i.one_sided),
      blocks-sweep n h,
      ap (λ (z : SmallHeap). z.empty) second
          ∙ empties
          ∙ ap (λ (z : SmallHeap). z.empty) (sym first),
      (λ s.
          ap (λ (z : SmallHeap). z.segreg s) second
          ∙ lists s
          ∙ ap (λ (z : SmallHeap). z.segreg s) (sym first)),
      blocks-sweep n (sweep n h)
          ∙ ap survivors (blocks-sweep n h)
          ∙ survivors_twice (blocks h.large.occupied),
    )
