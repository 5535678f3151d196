-- ===== src/Small/Ready.antt =====
-- The blocks that `allocate_small_object` (allocator/small-allocator.c) may find, and what it reads
-- in their headers.
use native.Mathlib.Decide.{dec_lt}
use garbage_collector.Prelude.{
  ℕ, zero, suc, ◌+◌, ◌*◌, ◌/◌, ◌≤◌, ◌<◌, ◌≡◌, ◌≢◌, ◌⊎◌, ◌∙◌, refl, List, [], ◌∷◌, arith, inl, inr,
  size_mod,
}
use garbage_collector.Memory.Words.{
  Memory, read64, write64, read64_same, write64_outside, read64-write64_self, read64-write64_apart,
}
use garbage_collector.Small.Header.{size_with_alignment, clear_words, init_header}
use garbage_collector.Small.Slot.{IsBlock, bit_at, size_with_alignment_lem}

-- A block for objects of `object_size` bytes whose slider is at object number `index`.
pub record IsReady (start : ℕ) (m : Memory) (object_size block : ℕ) : Type 0 where
  pub index : ℕ
  pub located : IsBlock start block
  pub sized : read64 m (block + 8) ≡ object_size
  pub slider : read64 m block ≡ block + 80 + index * size_with_alignment object_size
  pub inside : index * size_with_alignment object_size ≤ 4016

-- A block with no marked object.
pub record IsUnused (start : ℕ) (m : Memory) (block : ℕ) : Type 0 where
  pub located : IsBlock start block
  pub unmarked : (index : ℕ) → index < 512 → bit_at m block index ≡ 0

abbrev pub All {κ} : (ℕ → Type κ) → List ℕ → Type κ
All P [] = Unit
All P (b ∷ bs) = P b × All P bs

pub All-imp {κ μ} :
    {P : ℕ → Type κ} {Q : ℕ → Type μ} (bs : List ℕ) → ((b : ℕ) → P b → Q b) → All P bs → All Q bs
All-imp [] f a = tt
All-imp (b ∷ bs) f a = (f b a.0, All-imp bs f a.1)

-- The headers of the block are the same in both memories.
abbrev pub SameHeader : Memory → Memory → ℕ → Type 0
SameHeader m n block = (x : ℕ) → block ≤ x → x < block + 80 → n x ≡ m x

pub blocks_apart :
    (start a b : ℕ) → IsBlock start a → IsBlock start b → a ≢ b → (a + 4096 ≤ b) ⊎ (b + 4096 ≤ a)
blocks_apart start a b p q n = elim (dec_lt a b) [
  | yes h ↦ inl (omega (arith, p.above, p.aligned, q.above, q.aligned))
  | no h ↦ inr (omega (arith, p.above, p.aligned, q.above, q.aligned))
]

-- A change inside one block's header leaves the other headers alone.
pub SameHeader-of_outside :
    (start a b : ℕ) (m n : Memory)
    → IsBlock start a
    → IsBlock start b
    → a ≢ b
    → ((x : ℕ) → (x < a) ⊎ (a + 80 ≤ x) → n x ≡ m x)
    → SameHeader m n b
SameHeader-of_outside start a b m n p q d h x low high = h x (aside (blocks_apart start a b p q d))
  where
    aside : (a + 4096 ≤ b) ⊎ (b + 4096 ≤ a) → (x < a) ⊎ (a + 80 ≤ x)
    aside (inl k) = inr (omega arith)
    aside (inr k) = inl (omega arith)

pub IsReady-same :
    {start object_size block : ℕ} {m : Memory} (n : Memory)
    → SameHeader m n block
    → IsReady start m object_size block
    → IsReady start n object_size block
IsReady-same {block = block} {m = m} n h r = record {
  index = r.index;
  located = r.located;
  sized = read64_same n m (block + 8) (λ x p q. h x (omega arith) (omega arith)) ∙ r.sized;
  slider = read64_same n m block (λ x p q. h x (omega arith) (omega arith)) ∙ r.slider;
  inside = r.inside;
}

pub bit_at_same :
    {block : ℕ} {m n : Memory} (index : ℕ)
    → index < 512
    → SameHeader m n block
    → bit_at n block index ≡ bit_at m block index
bit_at_same {block} index p h = rw (h (block + 16 + index / 8) (omega arith) (omega arith))

pub IsUnused-same :
    {start block : ℕ} {m : Memory} (n : Memory)
    → SameHeader m n block
    → IsUnused start m block
    → IsUnused start n block
IsUnused-same n h u = record {
  located = u.located;
  unmarked = λ i p. bit_at_same i p h ∙ u.unmarked i p;
}

-- The objects of a size from 1 to 2008 take at least 8 and at most 2008 bytes.
pub object_size_bounds :
    (s : ℕ) → 1 ≤ s → s ≤ 2008 → (8 ≤ size_with_alignment s) × (size_with_alignment s ≤ 2008)
object_size_bounds s p q =
    let (low, high, even) = size_with_alignment_lem s (omega arith) in (omega arith, omega arith)

pub clear_words_outside :
    (n : ℕ) (m : Memory) (a x : ℕ) → (x < a) ⊎ (a + 8 * n ≤ x) → clear_words n m a x ≡ m x
unfolding clear_words
clear_words_outside zero m a x h = refl
clear_words_outside (suc n) m a x (inl h) =
    clear_words_outside n (write64 m a 0) (a + 8) x (inl (omega arith))
    ∙ write64_outside m a 0 x (inl h)
clear_words_outside (suc n) m a x (inr h) =
    clear_words_outside n (write64 m a 0) (a + 8) x (inr (omega arith))
    ∙ write64_outside m a 0 x (inr (omega arith))

-- The words that `init_header` leaves in front of the bitmap.
pub init_header-words :
    (m : Memory) (block s : ℕ)
    → block + 80 < size_mod
    → s < size_mod
    → (read64 (init_header m block s) block ≡ block + 80)
      × (read64 (init_header m block s) (block + 8) ≡ s)
unfolding init_header
init_header-words m block s p q =
    let sized = write64 m (block + 8) s in
    let placed = write64 sized block (block + 80) in
    let front =
      λ (x : ℕ) (h : x < block + 16). clear_words_outside 8 placed (block + 16) x (inl h) in
    (
      read64_same (clear_words 8 placed (block + 16)) placed block (λ x a b. front x (omega arith))
          ∙ read64-write64_self sized block (block + 80) p,
      read64_same (clear_words 8 placed (block + 16)) placed (block + 8)
            (λ x a b. front x (omega arith))
          ∙ read64-write64_apart sized block (block + 8) (block + 80) (inr (omega arith))
          ∙ read64-write64_self m (block + 8) s q,
    )
