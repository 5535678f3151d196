-- ===== src/Small/Sweep.antt =====
-- `sweep_small_heap` of sweeper/sweep.c, over the first `n` nodes of `NODES_LIST`.
use native.Mathlib.Decide.{dec_lt}
use garbage_collector.Prelude.{
  ℕ, zero, suc, ◌+◌, ◌*◌, ◌≤◌, ◌<◌, ◌≡◌, ◌⊎◌, ◌∙◌, refl, Bool, not, ◌&&◌, List, [], ◌∷◌, arith, inl,
  inr, size_mod, Bool-cases, ◌==◌, if◌then◌else◌,
}
use garbage_collector.Memory.Words.{
  Memory, read64, write64, read64_same, write64_outside, read64-write64_self, read64-write64_apart,
}
use garbage_collector.Small.Header.{block_size, block_header_size, words_empty, is_bitmap_empty}
use garbage_collector.Small.Alloc.{SmallHeap, set_entry}

-- `get_block_node(i)->block_addr`, as `__init_small_allocator` sets it.
unfoldable pub block_node : ℕ → ℕ → ℕ
block_node start i = start + block_size * i

-- One round of the loop, for the block `b`. `SEGREG_LIST` has an entry for each size up to 2008, the
-- sizes that the allocator writes; the model has one for every size.
unfoldable pub sweep_block : SmallHeap → ℕ → SmallHeap
sweep_block h b =
    let m = write64 h.mem b (b + block_header_size) in
    let object_size = read64 m (b + 8) in
    if is_bitmap_empty m b
    then record h { mem = write64 m (b + 8) 0; empty = b ∷ h.empty }
    else record h { mem = m; segreg = set_entry h.segreg object_size (b ∷ h.segreg object_size) }

-- The state after the rounds for the first `n` nodes.
unfoldable pub sweep_blocks : ℕ → SmallHeap → SmallHeap
sweep_blocks zero h = h
sweep_blocks (suc n) h = sweep_block (sweep_blocks n h) (block_node h.start n)

unfoldable pub sweep_small_heap : ℕ → SmallHeap → SmallHeap
sweep_small_heap n h = sweep_blocks n (record h { empty = []; segreg = λ s. [] })

-- The blocks of the first `n` nodes that a test accepts, the last first.
abbrev pub collect : (ℕ → Bool) → ℕ → ℕ → List ℕ
collect p start zero = []
collect p start (suc n) =
    if p (block_node start n) then block_node start n ∷ collect p start n else collect p start n

words_empty_same :
    (n : ℕ) (m k : Memory) (a : ℕ)
    → ((x : ℕ) → a ≤ x → x < a + 8 * n → k x ≡ m x)
    → words_empty n k a ≡ words_empty n m a
unfolding words_empty
words_empty_same zero m k a h = refl
words_empty_same (suc n) m k a h = rw (
  read64_same k m a (λ x p q. h x p (omega arith)),
  words_empty_same n m k (a + 8) (λ x p q. h x (omega arith) (omega arith)),
)

pub is_bitmap_empty_same :
    (m k : Memory) (b : ℕ)
    → ((x : ℕ) → b + 16 ≤ x → x < b + 80 → k x ≡ m x)
    → is_bitmap_empty k b ≡ is_bitmap_empty m b
unfolding is_bitmap_empty
is_bitmap_empty_same m k b h = words_empty_same 8 m k (b + 16) (λ x p q. h x p (omega arith))

abbrev pub holds_unmarked : Memory → ℕ → Bool
holds_unmarked m b = is_bitmap_empty m b

abbrev pub holds_marked : Memory → ℕ → ℕ → Bool
holds_marked m s b = not (is_bitmap_empty m b) && read64 m (b + 8) == s

-- The state after the rounds for the first `n` nodes, from the memory `m` and empty lists.
pub record IsSwept (start : ℕ) (m : Memory) (n : ℕ) (h : SmallHeap) : Type 0 where
  pub empty : h.empty ≡ collect (holds_unmarked m) start n
  pub listed : (s : ℕ) → h.segreg s ≡ collect (holds_marked m s) start n
  pub slider :
      (i : ℕ) → i < n → read64 h.mem (block_node start i) ≡ block_node start i + block_header_size
  pub sized :
      (i : ℕ)
      → i < n
      → read64 h.mem (block_node start i + 8)
        ≡ (if is_bitmap_empty m (block_node start i) then 0 else read64 m (block_node start i + 8))
  pub others :
      (x : ℕ)
      → ((i : ℕ) → i < n → (x < block_node start i) ⊎ (block_node start i + 16 ≤ x))
      → h.mem x ≡ m x

-- The slider of a block is set before its bitmap and its size are read.
pub slider_set_same :
    (m : Memory) (b : ℕ)
    → (is_bitmap_empty (write64 m b (b + block_header_size)) b ≡ is_bitmap_empty m b)
      × (read64 (write64 m b (b + block_header_size)) (b + 8) ≡ read64 m (b + 8))
slider_set_same m b = (
  is_bitmap_empty_same m (write64 m b (b + 80)) b
      (λ x p q. write64_outside m b (b + 80) x (inr (omega arith))),
  read64-write64_apart m b (b + 8) (b + 80) (inr (omega arith)),
)

-- One round writes only the first two words of the header.
sweep_block_mem :
    (h : SmallHeap) (b : ℕ)
    → b + 80 < size_mod
    → (read64 (sweep_block h b).mem b ≡ b + block_header_size)
      × (read64 (sweep_block h b).mem (b + 8)
          ≡ (if is_bitmap_empty h.mem b then 0 else read64 h.mem (b + 8)))
      × ((x : ℕ) → (x < b) ⊎ (b + 16 ≤ x) → (sweep_block h b).mem x ≡ h.mem x)
unfolding sweep_block
sweep_block_mem h b fits =
    let m = write64 h.mem b (b + block_header_size) in
    let (same, size) = slider_set_same h.mem b in
    let placed = read64-write64_self h.mem b (b + block_header_size) fits in
    let kept = λ (x : ℕ) (a : (x < b) ⊎ (b + 16 ≤ x)).
      write64_outside h.mem b (b + block_header_size) x (first x a) in
    elim (Bool-cases (is_bitmap_empty h.mem b)) [
      | inl e ↦
          rw (same, e)
            (
              read64-write64_apart m (b + 8) b 0 (inl (omega arith)) ∙ placed,
              read64-write64_self m (b + 8) 0 (omega arith),
              λ x a. write64_outside m (b + 8) 0 x (second x a) ∙ kept x a,
            )
      | inr e ↦ rw (same, e) (placed, size, kept)
    ]
  where
    first : (x : ℕ) → (x < b) ⊎ (b + 16 ≤ x) → (x < b) ⊎ (b + 8 ≤ x)
    first x (inl a) = inl a
    first x (inr a) = inr (omega arith)

    second : (x : ℕ) → (x < b) ⊎ (b + 16 ≤ x) → (x < b + 8) ⊎ (b + 8 + 8 ≤ x)
    second x (inl a) = inl (omega arith)
    second x (inr a) = inr (omega arith)

sweep_block_lists :
    (h : SmallHeap) (b : ℕ)
    → ((sweep_block h b).empty ≡ (if holds_unmarked h.mem b then b ∷ h.empty else h.empty))
      × ((s : ℕ)
          → (sweep_block h b).segreg s
            ≡ (if holds_marked h.mem s b then b ∷ h.segreg s else h.segreg s))
unfolding sweep_block
sweep_block_lists h b =
    let (same, size) = slider_set_same h.mem b in
    elim (Bool-cases (is_bitmap_empty h.mem b)) [
      | inl e ↦ rw (same, e) (refl, λ s. refl)
      | inr e ↦ rw (same, e, size) (refl, λ s. set_entry-front h.segreg (read64 h.mem (b + 8)) s b)
    ]
  where
    set_entry-front :
        (f : ℕ → List ℕ) (i j c : ℕ) → set_entry f i (c ∷ f i) j ≡ (if i == j then c ∷ f j else f j)
    set_entry-front f i j c = ground arith

sweep_block-start : (h : SmallHeap) (b : ℕ) → (sweep_block h b).start ≡ h.start
unfolding sweep_block
sweep_block-start h b = ground arith

pub sweep_blocks-start : (n : ℕ) (h : SmallHeap) → (sweep_blocks n h).start ≡ h.start
unfolding sweep_blocks
sweep_blocks-start zero h = refl
sweep_blocks-start (suc n) h =
    sweep_block-start (sweep_blocks n h) (block_node h.start n) ∙ sweep_blocks-start n h

pub block_node_before :
    (start i n : ℕ) → i < n → block_node start i + block_size ≤ block_node start n
unfolding block_node
block_node_before start i n p = omega arith

IsSwept-start :
    (start : ℕ) (h : SmallHeap) → IsSwept start h.mem 0 (record h { empty = []; segreg = λ s. [] })
IsSwept-start start h = record {
  empty = refl;
  listed = λ s. refl;
  slider = λ i p. absurd (omega arith);
  sized = λ i p. absurd (omega arith);
  others = λ x p. refl;
}

IsSwept-next :
    (start n : ℕ) (m : Memory) (h : SmallHeap)
    → block_node start n + 80 < size_mod
    → IsSwept start m n h
    → IsSwept start m (suc n) (sweep_block h (block_node start n))
IsSwept-next start n m h fits w =
    let b = block_node start n in
    let untouched = λ (x : ℕ) (p : b ≤ x).
      w.others x (λ i q. inr (omega (arith, block_node_before start i n q))) in
    let bitmap = is_bitmap_empty_same m h.mem b (λ x p q. untouched x (omega arith)) in
    let size = read64_same h.mem m (b + 8) (λ x p q. untouched x (omega arith)) in
    let (slid, sizes, kept) = sweep_block_mem h b fits in
    let (empties, lists) = sweep_block_lists h b in
    record {
      empty = empties ∙ rw (bitmap, w.empty);
      listed = λ s. lists s ∙ rw (bitmap, size, w.listed s);
      slider = λ i p. elim (dec_lt i n) [
        | yes q ↦
            read64_same _ h.mem (block_node start i)
              (λ x c d. kept x (inl (omega (arith, block_node_before start i n q))))
            ∙ w.slider i q
        | no q ↦ let e : i ≡ n = omega arith in rw e slid
      ];
      sized = λ i p. elim (dec_lt i n) [
        | yes q ↦
            read64_same _ h.mem (block_node start i + 8)
              (λ x c d. kept x (inl (omega (arith, block_node_before start i n q))))
            ∙ w.sized i q
        | no q ↦ let e : i ≡ n = omega arith in rw e (sizes ∙ rw (bitmap, size))
      ];
      others = λ x p. kept x (p n (omega arith)) ∙ w.others x (λ i q. p i (omega arith));
    }

sweep_blocks-IsSwept :
    (n : ℕ) (h : SmallHeap)
    → h.start + block_size * n < size_mod
    → IsSwept h.start h.mem n (sweep_blocks n (record h { empty = []; segreg = λ s. [] }))
unfolding sweep_blocks
sweep_blocks-IsSwept zero h fits = IsSwept-start h.start h
sweep_blocks-IsSwept (suc n) h fits =
    IsSwept-next h.start n h.mem (sweep_blocks n (record h { empty = []; segreg = λ s. [] }))
      (end h.start n fits) (sweep_blocks-IsSwept n h (omega arith))
  where
    end : (start k : ℕ) → start + block_size * suc k < size_mod → block_node start k + 80 < size_mod
    end start k f = unfold block_node in omega arith

-- For a heap that ends below 2^64: after the sweep of its first `n` nodes the list of empty blocks
-- holds exactly the blocks whose bitmap is empty and each list of a size exactly the other blocks
-- with that size in their header, each once and in descending order; a block on the list of empty
-- ones has size 0, the others keep their size; each slider is at the first object; and no byte but
-- those of the sliders and sizes differs.
pub sweep_small_heap-IsSwept :
    (n : ℕ) (h : SmallHeap)
    → h.start + block_size * n < size_mod
    → IsSwept h.start h.mem n (sweep_small_heap n h)
unfolding sweep_small_heap
sweep_small_heap-IsSwept n h fits = sweep_blocks-IsSwept n h fits
