-- ===== src/Small/Fresh.antt =====
-- A block that was empty, in allocator/small-allocator.c, and the bitmaps of a heap that is full.
use mathlib.Core.Path.{subst}
use mathlib.Core.Option.{Option, none, some}
use garbage_collector.Prelude.{
  ℕ, ◌+◌, ◌*◌, ◌≤◌, ◌<◌, ◌≡◌, ◌≢◌, ◌⊎◌, ◌∙◌, refl, sym, List, [], ◌∷◌, arith, inl, inr,
}
use garbage_collector.Memory.Words.{Memory, write64, write64_outside}
use garbage_collector.Small.Header.{init_header}
use garbage_collector.Small.Slot.{IsBlock}
use garbage_collector.Small.Alloc.{
  SmallHeap, clear_lists, fill_all_bitmaps_with_zeros, take_new_block,
}
use garbage_collector.Small.ScanProof.{AreBytes, write64-byte}
use garbage_collector.Small.Ready.{All, clear_words_outside}
use garbage_collector.Small.Offered.{AreListed, take_new_block-nil, take_new_block-cons}
use garbage_collector.Small.Core.{IsCoreOf, IsCore, IsDetached, IsCore-change}
use garbage_collector.Small.Clearing.{
  clear_words-AreBytes, SameWords, clear_lists-kept, IsReady-words,
}

-- The search has ended with a block that is taken out, or without one.
abbrev pub Found : ℕ → SmallHeap × Option ℕ → Type 0
Found s (h, none) = IsCoreOf h s
Found s (h, some b) = IsCoreOf h s × IsDetached h.start h.segreg h.empty h.cache s b

located :
    (start s : ℕ) (m : Memory) (empty bs : List ℕ)
    → AreListed start m m s empty bs
    → All (IsBlock start) bs
located start s m empty [] l = tt
located start s m empty (b ∷ bs) l = (l.0.ready.located, located start s m empty bs l.1)

AreListed-words :
    (start s : ℕ) (m n : Memory) (bs : List ℕ)
    → SameWords start m n
    → AreListed start m m s [] bs
    → AreListed start n n s [] bs
AreListed-words start s m n [] h l = tt
AreListed-words start s m n (b ∷ bs) h l = (
  record {
    ready = IsReady-words n h l.0.ready;
    same = λ x p q. refl;
    apart = l.0.apart;
    apart_empty = tt;
  },
  AreListed-words start s m n bs h l.1,
)

-- The heap is full, and all bitmaps are cleared.
cleared-IsCore :
    (h : SmallHeap) (s : ℕ)
    → h.empty ≡ []
    → IsCoreOf h s
    → IsCoreOf (fill_all_bitmaps_with_zeros h) s
unfolding fill_all_bitmaps_with_zeros
cleared-IsCore h s e c =
    let d = subst (λ z. IsCore h.start h.mem h.segreg z h.cache s) e c in
    let (same, bytes) =
      clear_lists-kept h.start 2008 1 h.segreg h.mem
        (λ t p q. located h.start t h.mem [] (h.segreg t) (d.listed t p (omega arith))) c.bytes in
    let k = clear_lists 2008 1 h.segreg h.mem in
    subst (λ z. IsCore h.start k h.segreg z h.cache s) (sym e)
      (record {
        bytes = bytes;
        listed = λ t p q. AreListed-words h.start t h.mem k (h.segreg t) same (d.listed t p q);
        cached = λ t b p q ne f.
            let l = d.cached t b p q ne f in
            record {
              ready = IsReady-words k same l.ready;
              same = λ x a z. refl;
              apart = l.apart;
              apart_empty = tt;
            };
        empties = tt;
        different = tt;
      })

AreListed-tail :
    (start s : ℕ) (m : Memory) (b : ℕ) (bs cs : List ℕ)
    → AreListed start m m s (b ∷ bs) cs
    → AreListed start m m s bs cs × All (λ c. b ≢ c) cs
AreListed-tail start s m b bs [] l = (tt, tt)
AreListed-tail start s m b bs (c ∷ cs) l =
    let (rest, apart) = AreListed-tail start s m b bs cs l.1 in
    (
      (
        record {
          ready = l.0.ready;
          same = l.0.same;
          apart = l.0.apart;
          apart_empty = l.0.apart_empty.1;
        },
        rest,
      ),
      ((λ e. l.0.apart_empty.0 (sym e)), apart),
    )

-- An empty block is taken off its list.
IsCore-tail :
    (start : ℕ) (m : Memory) (f : ℕ → List ℕ) (b : ℕ) (bs : List ℕ) (cache : ℕ → Option ℕ) (s : ℕ)
    → IsCore start m f (b ∷ bs) cache s
    → IsCore start m f bs cache s × IsDetached start f bs cache s b
IsCore-tail start m f b bs cache s c = (
  record {
    bytes = c.bytes;
    listed = λ t p q. (AreListed-tail start t m b bs (f t) (c.listed t p q)).0;
    cached = λ t a p q ne e.
        let l = c.cached t a p q ne e in
        record { ready = l.ready; same = l.same; apart = l.apart; apart_empty = l.apart_empty.1 };
    empties = c.empties.1;
    different = c.different.1;
  },
  record {
    located = c.empties.0.unused.located;
    lists = λ t p q. (AreListed-tail start t m b bs (f t) (c.listed t p q)).1;
    caches = λ t a p q ne e same. (c.cached t a p q ne e).apart_empty.0 (sym same);
    outside_empty = c.different.0;
  },
)

init_header-outside : (m : Memory) (b s x : ℕ) → (x < b) ⊎ (b + 80 ≤ x) → init_header m b s x ≡ m x
unfolding init_header
init_header-outside m b s x h =
    let sized = write64 m (b + 8) s in
    clear_words_outside 8 (write64 sized b (b + 80)) (b + 16) x (map_side h)
    ∙ write64_outside sized b (b + 80) x (first h)
    ∙ write64_outside m (b + 8) s x (second h)
  where
    map_side : (x < b) ⊎ (b + 80 ≤ x) → (x < b + 16) ⊎ (b + 16 + 8 * 8 ≤ x)
    map_side (inl k) = inl (omega arith)
    map_side (inr k) = inr (omega arith)

    first : (x < b) ⊎ (b + 80 ≤ x) → (x < b) ⊎ (b + 8 ≤ x)
    first (inl k) = inl k
    first (inr k) = inr (omega arith)

    second : (x < b) ⊎ (b + 80 ≤ x) → (x < b + 8) ⊎ (b + 8 + 8 ≤ x)
    second (inl k) = inl (omega arith)
    second (inr k) = inr (omega arith)

init_header-AreBytes : (m : Memory) (b s : ℕ) → AreBytes m → AreBytes (init_header m b s)
unfolding init_header
init_header-AreBytes m b s k =
    clear_words-AreBytes 8 _ (b + 16)
      (write64-byte (write64 m (b + 8) s) b (b + 80) (write64-byte m (b + 8) s k))

pub take_new_block-Found :
    (h : SmallHeap) (s : ℕ) (empty : List ℕ)
    → h.empty ≡ empty
    → IsCoreOf h s
    → Found s (take_new_block h s)
take_new_block-Found h s [] e c = rw (take_new_block-nil h s e) (cleared-IsCore h s e c)
take_new_block-Found h s (b ∷ bs) e c =
    let (rest, d) =
      IsCore-tail h.start h.mem h.segreg b bs h.cache s
        (subst (λ z. IsCore h.start h.mem h.segreg z h.cache s) e c) in
    rw (take_new_block-cons h s b bs e) (
      IsCore-change h.start h.mem (init_header h.mem b s) h.segreg bs h.cache s b d
          (init_header-AreBytes h.mem b s rest.bytes) (init_header-outside h.mem b s) rest,
      d,
    )

pub take_new_block-cache :
    (h : SmallHeap) (s : ℕ) (empty : List ℕ)
    → h.empty ≡ empty
    → (take_new_block h s).0.cache ≡ h.cache
unfolding fill_all_bitmaps_with_zeros
take_new_block-cache h s [] e = rw (take_new_block-nil h s e) refl
take_new_block-cache h s (b ∷ bs) e = rw (take_new_block-cons h s b bs e) refl
