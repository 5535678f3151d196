-- ===== src/Small/Clearing.antt =====
-- `fill_all_bitmaps_with_zeros` of allocator/small-allocator.c leaves the sliders and sizes.
use garbage_collector.Prelude.{
  ℕ, zero, suc, ◌+◌, ◌*◌, ◌≤◌, ◌<◌, ◌≡◌, ◌⊎◌, ◌∙◌, refl, List, [], ◌∷◌, arith, inl, inr,
}
use native.Mathlib.Decide.{dec_lt}
use garbage_collector.Memory.Words.{Memory, read64_same}
use garbage_collector.Small.Header.{clear_words}
use garbage_collector.Small.Slot.{IsBlock}
use garbage_collector.Small.Alloc.{clear_list, clear_lists}
use garbage_collector.Small.ScanProof.{AreBytes, write64-byte}
use garbage_collector.Small.Ready.{IsReady, All, clear_words_outside}

pub clear_words-AreBytes : (n : ℕ) (m : Memory) (a : ℕ) → AreBytes m → AreBytes (clear_words n m a)
unfolding clear_words
clear_words-AreBytes zero m a b = b
clear_words-AreBytes (suc n) m a b = clear_words-AreBytes n _ (a + 8) (write64-byte m a 0 b)

-- The first two words of each block are the same.
abbrev pub SameWords : ℕ → Memory → Memory → Type 0
SameWords start m n = (c : ℕ) → IsBlock start c → (x : ℕ) → c ≤ x → x < c + 16 → n x ≡ m x

clear_bitmap-SameWords :
    (start b : ℕ) (m : Memory) → IsBlock start b → SameWords start m (clear_words 8 m (b + 16))
clear_bitmap-SameWords start b m k c l x p q =
    clear_words_outside 8 m (b + 16) x (aside (dec_lt c b))
  where
    aside : Dec (c < b) → (x < b + 16) ⊎ (b + 16 + 8 * 8 ≤ x)
    aside (yes h) = inl (omega arith)
    aside (no h) = elim (dec_lt b c) [
      | yes g ↦ inr (omega (arith, k.above, k.aligned, l.above, l.aligned))
      | no g ↦ inl (omega arith)
    ]

clear_list-kept :
    (start : ℕ) (bs : List ℕ) (m : Memory)
    → All (IsBlock start) bs
    → AreBytes m
    → SameWords start m (clear_list bs m) × AreBytes (clear_list bs m)
unfolding clear_list
clear_list-kept start [] m a bytes = ((λ c l x p q. refl), bytes)
clear_list-kept start (b ∷ bs) m a bytes =
    let (same, k) =
      clear_list-kept start bs (clear_words 8 m (b + 16)) a.1
        (clear_words-AreBytes 8 m (b + 16) bytes) in
    ((λ c l x p q. same c l x p q ∙ clear_bitmap-SameWords start b m a.0 c l x p q), k)

pub clear_lists-kept :
    (start n i : ℕ) (f : ℕ → List ℕ) (m : Memory)
    → ((t : ℕ) → i ≤ t → t < i + n → All (IsBlock start) (f t))
    → AreBytes m
    → SameWords start m (clear_lists n i f m) × AreBytes (clear_lists n i f m)
unfolding clear_lists
clear_lists-kept start zero i f m a bytes = ((λ c l x p q. refl), bytes)
clear_lists-kept start (suc n) i f m a bytes =
    let (first, b) = clear_list-kept start (f i) m (a i (omega arith) (omega arith)) bytes in
    let (rest, b') =
      clear_lists-kept start n (i + 1) f (clear_list (f i) m)
        (λ t p q. a t (omega arith) (omega arith)) b in
    ((λ c l x p q. rest c l x p q ∙ first c l x p q), b')

pub IsReady-words :
    {start object_size block : ℕ} {m : Memory} (n : Memory)
    → SameWords start m n
    → IsReady start m object_size block
    → IsReady start n object_size block
IsReady-words {block = block} {m = m} n h r = record {
  index = r.index;
  located = r.located;
  sized =
      read64_same n m (block + 8) (λ x p q. h block r.located x (omega arith) (omega arith))
      ∙ r.sized;
  slider =
      read64_same n m block (λ x p q. h block r.located x (omega arith) (omega arith)) ∙ r.slider;
  inside = r.inside;
}
