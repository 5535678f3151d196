-- ===== src/Small/Keeps.antt =====
-- `allocate_small_object` of allocator/small-allocator.c keeps the heap in order, for all sizes.
use mathlib.Core.Path.{subst}
use mathlib.Core.Option.{Option, none, some}
use garbage_collector.Prelude.{
  ℕ, ◌+◌, ◌≤◌, ◌≡◌, ◌∙◌, refl, sym, ap, Bool, true, false, List, arith, inl, inr, Option-cases, leb,
  ltb, if◌then◌else◌,
}
use garbage_collector.Memory.Words.{Memory}
use garbage_collector.Small.Header.{size_with_alignment}
use garbage_collector.Small.Alloc.{
  SmallHeap, set_entry, scan_from_slider, find_block, allocate_small_object,
}
use garbage_collector.Small.Offered.{IsSearchable, IsScan-ready}
use garbage_collector.Small.AllocProof.{find_block-IsOffered, cached-IsOffered}
use garbage_collector.Small.Core.{
  IsCoreOf, IsInOrder, IsSearchable-IsInOrder, IsCore, IsDetached, set_entry_self, set_entry_other,
}
use garbage_collector.Small.Fresh.{Found}
use garbage_collector.Small.Found.{IsCore-scan, find_block-Found, find_block-cache, set_entry_same}
use garbage_collector.Small.Taken.{take_found-IsInOrder}

without : (h : SmallHeap) (s : ℕ) → IsInOrder h → IsCoreOf h s
without h s c = record {
  bytes = c.bytes;
  listed = c.listed;
  cached = λ t b p q ne e. c.cached t b p q (omega arith) e;
  empties = c.empties;
  different = c.different;
}

recached :
    (start : ℕ) (m : Memory) (f : ℕ → List ℕ) (empty : List ℕ) (cache : ℕ → Option ℕ) (s b : ℕ)
    (new : Option ℕ)
    → IsCore start m f empty cache s
    → IsDetached start f empty cache s b
    → IsCore start m f empty (set_entry cache s new) s
      × IsDetached start f empty (set_entry cache s new) s b
recached start m f empty cache s b new c d = (
  record {
    bytes = c.bytes;
    listed = c.listed;
    cached = λ t a p q ne e. c.cached t a p q ne (sym (set_entry_other cache s t new ne) ∙ e);
    empties = c.empties;
    different = c.different;
  },
  record {
    located = d.located;
    lists = d.lists;
    caches = λ t a p q ne e. d.caches t a p q ne (sym (set_entry_other cache s t new ne) ∙ e);
    outside_empty = d.outside_empty;
  },
)

-- The search of the lists leaves the cache without a block.
find_block-uncached :
    (s : ℕ)
    → 1 ≤ s
    → s ≤ 2008
    → (k : SmallHeap) (b : ℕ) (found : Bool) → (found ≡ false → k.cache s ≡ none)
    → (if found then (k, some b) else find_block (k.segreg s) k s).1 ≡ none
    → (if found then (k, some b) else find_block (k.segreg s) k s).0.cache s ≡ none
find_block-uncached s p q k b true g f = cc f
find_block-uncached s p q k b false g f =
    ap (λ (v : ℕ → Option ℕ). v s) (find_block-cache s p q (k.segreg s) k) ∙ g refl

entry_none :
    (cache : ℕ → Option ℕ) (s b slider size : ℕ)
    → leb (slider + size) (b + 4096) ≡ false
    → set_entry cache s (if ltb (b + 4096) (slider + size) then none else some b) s ≡ none
entry_none cache s b slider size room =
    let t : ltb (b + 4096) (slider + size) ≡ true = ground (arith, room) in
    set_entry_self cache s (if ltb (b + 4096) (slider + size) then none else some b) ∙ rw t refl

allocate-IsInOrder :
    (h : SmallHeap) (s : ℕ)
    → 1 ≤ s
    → s ≤ 2008
    → IsInOrder h
    → IsInOrder (allocate_small_object h s).0
unfolding allocate_small_object
allocate-IsInOrder h s p q c =
    let w = IsSearchable-IsInOrder h s p q c in
    let core = without h s c in
    elim (Option-cases (h.cache s)) [
      | inl e ↦
          rw (e, allocate_small_object)
            (take_found-IsInOrder s p q (find_block (h.segreg s) h s) h.start h.mem
              (find_block-Found s p q (h.segreg s) h (
                subst (λ z. IsCore h.start h.mem z h.empty h.cache s) (set_entry_same h.segreg s)
                  core))
              (λ b f.
                find_block-IsOffered h.start s h.mem p q (h.segreg s) h b refl w.bytes w.listed
                  w.empties f)
              (λ f. ap (λ (g : ℕ → Option ℕ). g s) (find_block-cache s p q (h.segreg s) h) ∙ e))
      | inr (b, e) ↦
          let l = w.cached b e in
          let out = scan_from_slider h (size_with_alignment s) b in
          let new : Option ℕ =
            if ltb (b + 4096) (out.slider + size_with_alignment s) then none else some b in
          let h' = record h { mem = out.mem; cache = set_entry h.cache s new } in
          let (kept, d) = IsCore-scan s p q h h.segreg h.cache b core l in
          let (kept', d') = recached h.start out.mem h.segreg h.empty h.cache s b new kept d in
          let i = IsScan-ready h.start s h.mem p q h b l.ready refl w.bytes in
          rw (e, allocate_small_object)
            (take_found-IsInOrder s p q
              (if out.found then (h', some b) else find_block (h.segreg s) h' s) h.start h.mem
              (from_cache h' b out.found (kept', d'))
              (λ a f. cached-IsOffered h s b a (set_entry h.cache s new) p q w l f)
              (find_block-uncached s p q h' b out.found
                (λ e. entry_none h.cache s b out.slider (size_with_alignment s) (i.room ∙ e))))
    ]
  where
    from_cache :
        (k : SmallHeap) (b : ℕ) (found : Bool)
        → IsCoreOf k s × IsDetached k.start k.segreg k.empty k.cache s b
        → Found s (if found then (k, some b) else find_block (k.segreg s) k s)
    from_cache k b true g = g
    from_cache k b false g =
        find_block-Found s p q (k.segreg s) k
          (subst (λ z. IsCore k.start k.mem z k.empty k.cache s) (set_entry_same k.segreg s) g.0)

-- An allocation of 1 to 2008 bytes keeps the heap in order, whether it succeeds, with a block from the
-- cache, a list or the empty ones, or not: for every size the blocks of its list and its cached block are
-- laid out for the size with their slider in place, the empty blocks have no mark, and no block is in two
-- places. So every size can be allocated next.
pub allocate_small_object-IsInOrder :
    (h : SmallHeap) (s : ℕ)
    → 1 ≤ s
    → s ≤ 2008
    → IsInOrder h
    → IsInOrder (allocate_small_object h s).0
      × ((t : ℕ) → 1 ≤ t → t ≤ 2008 → IsSearchable (allocate_small_object h s).0 t)
allocate_small_object-IsInOrder h s p q c =
    let k = allocate-IsInOrder h s p q c in
    (k, λ t a b. IsSearchable-IsInOrder (allocate_small_object h s).0 t a b k)
