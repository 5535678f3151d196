-- ===== src/Small/Produced.antt =====
-- The heaps of small objects that the program comes to: from `__init_small_allocator` and
-- `allocate_small_object` (allocator/small-allocator.c), the collections with `sweep_small_heap`
-- (sweeper/sweep.c), and the program's own writes.
use mathlib.Core.Option.{Option, none, some}
use mathlib.Core.Path.{subst}
use garbage_collector.Prelude.{
  ℕ, zero, suc, sym, ◌==◌, ◌+◌, ◌*◌, ◌≤◌, ◌<◌, ◌≡◌, ◌⊎◌, ◌∙◌, refl, Bool, true, false, List, [],
  ◌∷◌, arith, inl, inr, size_mod, Bool-cases, Option-cases, if◌then◌else◌,
}
use garbage_collector.Memory.Words.{Memory}
use garbage_collector.Small.Header.{block_size, size_with_alignment}
use garbage_collector.Small.Alloc.{
  SmallHeap, set_entry, scan_from_slider, take_new_block, find_block, take_object, take_found,
  fill_all_bitmaps_with_zeros, allocate_small_object,
}
use garbage_collector.Small.ScanProof.{AreBytes}
use garbage_collector.Small.Ready.{All, SameHeader, IsReady-same, IsUnused-same}
use garbage_collector.Small.Offered.{
  AreListed, IsEmptyBlock, take_new_block-nil, take_new_block-cons,
}
use garbage_collector.Small.AllocProof.{IsHandedOut, allocate_small_object-IsHandedOut}
use garbage_collector.Small.Sweep.{
  sweep_small_heap, block_node, IsSwept, sweep_small_heap-IsSwept, holds_marked, holds_unmarked,
}
use garbage_collector.Small.Init.{init_small_allocator, node_list, map_failed}
use garbage_collector.Small.Within.{IsWithin, allocate_small_object-IsWithin}
use garbage_collector.Small.Renewed.{
  All-collect, collectable, clear_cache-start, sweep_small_heap-start, sweep_small_heap-IsInOrder,
}
use garbage_collector.Small.First.{init_small_allocator-IsInOrder}
use garbage_collector.Small.Core.{IsInOrder, IsSearchable-IsInOrder}
use garbage_collector.Small.Keeps.{allocate_small_object-IsInOrder}

-- The heaps of `n` blocks at `start`: as initialised in pages of zeros; after an allocation; after the
-- program has written outside the headers of its `n` blocks; and after a collection, whatever it marks.
pub data Produced (n start : ℕ) : SmallHeap → Type 0 where
  initialised :
      (m : Memory)
      → AreBytes m
      → ((x : ℕ) → start ≤ x → x < start + block_size * n → m x ≡ 0)
      → Produced n start (init_small_allocator n start m)
  allocated :
      (h : SmallHeap) (s : ℕ)
      → 1 ≤ s
      → s ≤ 2008
      → Produced n start h
      → Produced n start (allocate_small_object h s).0
  written :
      (h : SmallHeap) (m : Memory)
      → AreBytes m
      → ((i : ℕ) → i < n → SameHeader h.mem m (block_node start i))
      → Produced n start h
      → Produced n start (record h { mem = m })
  collected :
      (h : SmallHeap) (m : Memory)
      → AreBytes m
      → Produced n start h
      → Produced n start (sweep_small_heap n (collectable h m))

take_new_block-start :
    (h : SmallHeap) (s : ℕ) (empty : List ℕ)
    → h.empty ≡ empty
    → (take_new_block h s).0.start ≡ h.start
unfolding fill_all_bitmaps_with_zeros
take_new_block-start h s [] e = rw (take_new_block-nil h s e) refl
take_new_block-start h s (b ∷ bs) e = rw (take_new_block-cons h s b bs e) refl

find_block-start : (bs : List ℕ) (h : SmallHeap) (s : ℕ) → (find_block bs h s).0.start ≡ h.start
unfolding find_block
find_block-start [] h s =
    take_new_block-start (record h { segreg = set_entry h.segreg s [] }) s h.empty refl
find_block-start (b ∷ bs) h s =
    let out = scan_from_slider h (size_with_alignment s) b in
    let h' = record h { mem = out.mem; segreg = set_entry h.segreg s bs } in
    elim (Bool-cases out.found) [ inl e ↦ rw e refl | inr e ↦ rw e (find_block-start bs h' s) ]

take_found-start : (s : ℕ) (r : SmallHeap × Option ℕ) → (take_found s r).0.start ≡ r.0.start
unfolding take_found take_object
take_found-start s (h, none) = refl
take_found-start s (h, some b) = refl

if_start :
    (s b : ℕ) (h : SmallHeap) (found : Bool)
    → (if found then (h, some b) else find_block (h.segreg s) h s).0.start ≡ h.start
if_start s b h true = refl
if_start s b h false = find_block-start (h.segreg s) h s

allocate_small_object-start :
    (h : SmallHeap) (s : ℕ) → (allocate_small_object h s).0.start ≡ h.start
unfolding allocate_small_object
allocate_small_object-start h s = elim (Option-cases (h.cache s)) [
  | inl e ↦
      rw (e, allocate_small_object)
        (take_found-start s (find_block (h.segreg s) h s) ∙ find_block-start (h.segreg s) h s)
  | inr (b, e) ↦ rw (e, allocate_small_object) (take_found-start s _ ∙ if_start s b _ _)
]

-- One of the `n` blocks of the heap.
abbrev pub IsNode : ℕ → ℕ → ℕ → Type 0
IsNode n start b = (i : ℕ) × (i < n) × (b ≡ block_node start i)

AreListed-written :
    (start s : ℕ) (m n : Memory) (empty : List ℕ) (P : ℕ → Type 0) (bs : List ℕ)
    → ((b : ℕ) → P b → SameHeader m n b)
    → All P bs
    → AreListed start m m s empty bs
    → AreListed start n n s empty bs
AreListed-written start s m n empty P [] h a l = tt
AreListed-written start s m n empty P (b ∷ bs) h a l = (
  record {
    ready = IsReady-same n (h b a.0) l.0.ready;
    same = λ x p q. refl;
    apart = l.0.apart;
    apart_empty = l.0.apart_empty;
  },
  AreListed-written start s m n empty P bs h a.1 l.1,
)

AreEmpty-written :
    (start : ℕ) (m n : Memory) (P : ℕ → Type 0) (bs : List ℕ)
    → ((b : ℕ) → P b → SameHeader m n b)
    → All P bs
    → All (IsEmptyBlock start m m) bs
    → All (IsEmptyBlock start n n) bs
AreEmpty-written start m n P [] h a e = tt
AreEmpty-written start m n P (b ∷ bs) h a e = (
  record { unused = IsUnused-same n (h b a.0) e.0.unused; same = λ x p q. refl },
  AreEmpty-written start m n P bs h a.1 e.1,
)

IsInOrder-written :
    (h : SmallHeap) (n : Memory) (P : ℕ → Type 0)
    → AreBytes n
    → ((b : ℕ) → P b → SameHeader h.mem n b)
    → IsWithin P h
    → IsInOrder h
    → IsInOrder (record h { mem = n })
IsInOrder-written h n P bytes same w c = record {
  bytes = bytes;
  listed = λ t p q.
      AreListed-written h.start t h.mem n h.empty P (h.segreg t) same (w.lists t) (c.listed t p q);
  cached = λ t b p q ne e.
      let l = c.cached t b p q ne e in
      record {
        ready = IsReady-same n (same b (w.caches t b q e)) l.ready;
        same = λ x a z. refl;
        apart = l.apart;
        apart_empty = l.apart_empty;
      };
  empties = AreEmpty-written h.start h.mem n P h.empty same w.empties c.empties;
  different = c.different;
}

All-node_list_nodes : (n start k i : ℕ) → i + k ≡ n → All (IsNode n start) (node_list k i start)
unfolding node_list
All-node_list_nodes n start zero i e = tt
All-node_list_nodes n start (suc k) i e =
    ((i, omega (arith, e), refl), All-node_list_nodes n start k (i + 1) (omega (arith, e)))

init_small_allocator-IsWithin :
    (n start : ℕ) (m : Memory) → IsWithin (IsNode n start) (init_small_allocator n start m)
unfolding init_small_allocator
init_small_allocator-IsWithin n start m = record {
  lists = λ s. tt;
  empties = elim (Bool-cases (start == map_failed)) [
    | inl e ↦ rw e tt
    | inr e ↦ rw e (All-node_list_nodes n start n 0 (omega arith))
  ];
  caches = λ s b p e. cc e;
}

-- What holds of each heap that is reached.
pub record IsSound (n start : ℕ) (h : SmallHeap) : Type 0 where
  pub started : h.start ≡ start
  pub ordered : IsInOrder h
  pub within : IsWithin (IsNode n start) h

module _ (n start : ℕ) (one : 1 ≤ n) (fits : start + block_size * n < size_mod) where
  swept-IsWithin :
      (h : SmallHeap) (m : Memory)
      → h.start ≡ start
      → AreBytes m
      → IsWithin (IsNode n start) (sweep_small_heap n (collectable h m))
  swept-IsWithin h m e bytes =
      let k = collectable h m in
      let at = clear_cache-start h ∙ e in
      let cleared = (sweep_small_heap-IsInOrder n h m (omega (arith, e, fits)) bytes).1 in
      let w =
        subst (λ z. IsSwept z m n (sweep_small_heap n k)) at
          (sweep_small_heap-IsSwept n k (omega (arith, at, fits))) in
      record {
        lists = λ s.
            rw (w.listed s)
              (All-collect (IsNode n start) (holds_marked m s) start n (λ i p x. (i, p, refl)));
        empties =
            rw w.empty
              (All-collect (IsNode n start) (holds_unmarked m) start n (λ i p x. (i, p, refl)));
        caches = λ s b p f. cc (cleared s p, f);
      }

  pub Produced-IsSound : (h : SmallHeap) → Produced n start h → IsSound n start h
  Produced-IsSound _ (initialised m bytes zeroed) =
      let (e, c) = init_small_allocator-IsInOrder n start m one fits bytes zeroed in
      record { started = e; ordered = c; within = init_small_allocator-IsWithin n start m }
  Produced-IsSound _ (allocated h s p q r) =
      let i = Produced-IsSound h r in
      record {
        started = allocate_small_object-start h s ∙ i.started;
        ordered = (allocate_small_object-IsInOrder h s p q i.ordered).0;
        within = allocate_small_object-IsWithin (IsNode n start) h s q i.within;
      }
  Produced-IsSound _ (written h m bytes same r) =
      let i = Produced-IsSound h r in
      record {
        started = i.started;
        ordered =
            IsInOrder-written h m (IsNode n start) bytes
              (λ b (j, lt, at). subst (SameHeader h.mem m) (sym at) (same j lt)) i.within i.ordered;
        within = record {
          lists = i.within.lists;
          empties = i.within.empties;
          caches = i.within.caches;
        };
      }
  Produced-IsSound _ (collected h m bytes r) =
      let i = Produced-IsSound h r in
      record {
        started = sweep_small_heap-start n (collectable h m) ∙ clear_cache-start h ∙ i.started;
        ordered = (sweep_small_heap-IsInOrder n h m (omega (arith, i.started, fits)) bytes).0;
        within = swept-IsWithin h m i.started bytes;
      }

  -- From initialisation on, over all allocations, collections and writes of the program outside the
  -- headers of the heap's blocks, an allocation of 1 to 2008 bytes hands out an unmarked object of a block for its size,
  -- behind which the block's slider stands then, or gives `NULL` when there is no empty block. The
  -- blocks have to end below 2^64, be at least one and start out as zeros, and the memory to hold bytes.
  pub Produced-IsHandedOut :
      (h : SmallHeap) (s : ℕ)
      → Produced n start h
      → 1 ≤ s
      → s ≤ 2008
      → let (h', addr) = allocate_small_object h s in
        ((addr ≡ 0) × (h.empty ≡ [])) ⊎ IsHandedOut start h.mem h'.mem s addr
  Produced-IsHandedOut h s r p q =
      let i = Produced-IsSound h r in
      subst
        (λ z.
          ((((allocate_small_object h s).1 ≡ 0) × (h.empty ≡ []))
            ⊎ IsHandedOut z h.mem (allocate_small_object h s).0.mem s
                (allocate_small_object h s).1))
        i.started
        (allocate_small_object-IsHandedOut h s p q (IsSearchable-IsInOrder h s p q i.ordered))
