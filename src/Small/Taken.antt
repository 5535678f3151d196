-- ===== src/Small/Taken.antt =====
-- `take_found` of the model, the slot that allocator/small-allocator.c hands out, for the other blocks.
use native.Mathlib.Nat.{suc-mul}
use mathlib.Core.Path.{subst}
use mathlib.Core.Option.{Option, none, some}
use garbage_collector.Prelude.{
  ℕ, suc, ◌+◌, ◌*◌, ◌≤◌, ◌<◌, ◌≡◌, ◌⊎◌, ◌∙◌, refl, sym, ap, List, arith, inl, inr, Bool-cases, ◌==◌,
  leb, if◌then◌else◌,
}
use garbage_collector.Memory.Words.{
  Memory, read64, write64, write64_outside, read64-write64_self, read64-write64_apart,
}
use garbage_collector.Small.Header.{size_with_alignment}
use garbage_collector.Small.Alloc.{SmallHeap, set_entry, take_object, take_found}
use garbage_collector.Small.ScanProof.{write64-byte}
use garbage_collector.Small.Offered.{IsOffered, IsListed}
use garbage_collector.Small.Core.{IsCoreOf, IsInOrder, IsCore, IsDetached, IsCore-change}
use garbage_collector.Small.Fresh.{Found}

is_cached :
    (b a next : ℕ)
    → (if leb (b + 4096) next then none else some b) ≡ some a
    → (next < b + 4096) × (b ≡ a)
is_cached b a next e = elim (Bool-cases (leb (b + 4096) next)) [
  | inl t ↦ cc (rw t at e)
  | inr t ↦ (ground (arith, t), cc (rw t at e))
]

next_slot :
    (w b i z : ℕ) → w ≡ b + 80 + i * z → (w + z ≡ b + 80 + suc i * z) × (suc i * z ≡ i * z + z)
next_slot w b i z e = (omega (arith, suc-mul i z), suc-mul i z)

-- With the cache of the size set, nothing is left out.
IsCore-cache :
    (start : ℕ) (m : Memory) (f : ℕ → List ℕ) (empty : List ℕ) (cache : ℕ → Option ℕ) (s : ℕ)
    (new : Option ℕ)
    → ((b : ℕ) → new ≡ some b → IsListed start m m s empty (f s) b)
    → IsCore start m f empty cache s
    → IsCore start m f empty (set_entry cache s new) 2009
IsCore-cache start m f empty cache s new own c = record {
  bytes = c.bytes;
  listed = c.listed;
  cached = λ t b p q ne e. at t b p q e;
  empties = c.empties;
  different = c.different;
}
  where
    at :
        (t b : ℕ)
        → 1 ≤ t
        → t ≤ 2008
        → set_entry cache s new t ≡ some b
        → IsListed start m m t empty (f t) b
    at t b p q e = elim (Bool-cases (s == t)) [
      | inl here ↦
          let same : s ≡ t = ground (arith, here) in
          subst (λ z. IsListed start m m z empty (f z) b) same (own b (rw here at e))
      | inr away ↦ c.cached t b p q (ground (arith, away)) (rw away at e)
    ]

IsInOrder-uncached : (h : SmallHeap) (s : ℕ) → IsCoreOf h s → h.cache s ≡ none → IsInOrder h
IsInOrder-uncached h s c e = record {
  bytes = c.bytes;
  listed = c.listed;
  cached = λ t b p q ne f. elim (Bool-cases (t == s)) [
    | inl same ↦ let at : t ≡ s = ground (arith, same) in cc (sym f, ap h.cache at, e)
    | inr other ↦ c.cached t b p q (ground (arith, other)) f
  ];
  empties = c.empties;
  different = c.different;
}

module _ (s : ℕ) (least : 1 ≤ s) (most : s ≤ 2008) where
  -- The block that was found becomes the cached one, or is full.
  take_object-IsInOrder :
      (h : SmallHeap) (start : ℕ) (old : Memory) (b : ℕ)
      → IsCoreOf h s
      → IsDetached h.start h.segreg h.empty h.cache s b
      → IsOffered start old h.mem s b
      → IsInOrder (take_object h s b).0
  unfolding take_object
  take_object-IsInOrder h start old b c d o =
      let next = read64 h.mem b + size_with_alignment s in
      let m = write64 h.mem b next in
      let cached : Option ℕ = if leb (b + 4096) next then none else some b in
      let k =
        IsCore-change h.start h.mem m h.segreg h.empty h.cache s b d
          (write64-byte h.mem b next c.bytes) (λ x a. write64_outside h.mem b next x (near x a))
          c in
      let slid = read64-write64_self h.mem b next (omega (arith, o.slot.ends, o.slot.block.fits)) in
      let size = read64-write64_apart h.mem b (b + 8) next (inr (omega arith)) ∙ o.sized in
      IsCore-cache h.start m h.segreg h.empty h.cache s cached
        (λ a e.
          let (below, same) = is_cached b a next e in
          subst (λ z. IsListed h.start m m s h.empty (h.segreg s) z) same
            (record {
              ready = record {
                index = suc o.index;
                located = d.located;
                sized = size;
                slider =
                    slid
                    ∙ (next_slot (read64 h.mem b) b o.index (size_with_alignment s) o.slot.at).0;
                inside = omega (
                  arith,
                  below,
                  (next_slot (read64 h.mem b) b o.index (size_with_alignment s) o.slot.at).0,
                );
              };
              same = λ x p q. refl;
              apart = d.lists s least most;
              apart_empty = d.outside_empty;
            }))
        k
    where
      near : (x : ℕ) → (x < b) ⊎ (b + 80 ≤ x) → (x < b) ⊎ (b + 8 ≤ x)
      near x (inl a) = inl a
      near x (inr a) = inr (omega arith)

  pub take_found-IsInOrder :
      (r : SmallHeap × Option ℕ) (start : ℕ) (old : Memory)
      → Found s r
      → ((b : ℕ) → r.1 ≡ some b → IsOffered start old r.0.mem s b)
      → (r.1 ≡ none → r.0.cache s ≡ none)
      → IsInOrder (take_found s r).0
  unfolding take_found
  take_found-IsInOrder (h, none) start old c o e = IsInOrder-uncached h s c (e refl)
  take_found-IsInOrder (h, some b) start old (c, d) o e =
      take_object-IsInOrder h start old b c d (o b refl)
