-- ===== src/Small/AllocProof.antt =====
-- What `allocate_small_object` (allocator/small-allocator.c) hands out.
use mathlib.Core.Option.{Option, none, some}
use garbage_collector.Prelude.{
  ℕ, ◌+◌, ◌≤◌, ◌≡◌, ◌⊎◌, ◌∙◌, ap, refl, sym, Bool, true, false, List, [], ◌∷◌, arith, inl, inr,
  Bool-cases, Option-cases, if◌then◌else◌,
}
use garbage_collector.Memory.Words.{Memory, read64, read64-write64_self, read64-write64_apart}
use garbage_collector.Small.Header.{size_with_alignment}
use garbage_collector.Small.Slot.{IsSlot, bit_at}
use garbage_collector.Small.Alloc.{
  SmallHeap, set_entry, scan_from_slider, take_new_block, find_block, take_object, take_found,
  allocate_small_object,
}
use garbage_collector.Small.ScanProof.{AreBytes}
use garbage_collector.Small.Ready.{All}
use garbage_collector.Small.Offered.{
  IsOffered, IsListed, AreListed, IsEmptyBlock, IsSearchable, take_new_block-cons, IsScan-ready,
  IsOffered-of_scan, take_new_block-IsOffered, AreListed-after, AreEmpty-after,
}

-- The object at `addr` lies in a block for objects of `s` bytes, was not marked, and the block's
-- slider is behind it.
pub record IsHandedOut (start : ℕ) (old m : Memory) (s addr : ℕ) : Type 0 where
  pub block : ℕ
  pub index : ℕ
  pub slot : IsSlot start m block (size_with_alignment s) index addr
  pub unmarked : bit_at old block index ≡ 0
  pub advanced : read64 m block ≡ addr + size_with_alignment s

module _ (start s : ℕ) (old : Memory) (least : 1 ≤ s) (most : s ≤ 2008) where
  pub find_block-IsOffered :
      (bs : List ℕ) (h : SmallHeap) (block : ℕ)
      → h.start ≡ start
      → AreBytes h.mem
      → AreListed start old h.mem s h.empty bs
      → All (IsEmptyBlock start old h.mem) h.empty
      → (find_block bs h s).1 ≡ some block
      → IsOffered start old (find_block bs h s).0.mem s block
  unfolding find_block
  find_block-IsOffered [] h block e bytes l a f =
      take_new_block-IsOffered start s old least most
        (record h { segreg = set_entry h.segreg s [] }) h.empty block refl a f
  find_block-IsOffered (b ∷ bs) h block e bytes l a f =
      let i = IsScan-ready start s old least most h b l.0.ready e bytes in
      let out = scan_from_slider h (size_with_alignment s) b in
      let h' = record h { mem = out.mem; segreg = set_entry h.segreg s bs } in
      elim (Bool-cases out.found) [
        | inl found ↦
            rw (found, find_block)
              (let same : b ≡ block = cc (rw (found, find_block) at f) in
                rw (← same)
                  (IsOffered-of_scan start s old least most h b l.0.ready out l.0.same i found))
        | inr full ↦
            rw (full, find_block)
              (find_block-IsOffered bs h' block e i.bytes
                (AreListed-after start s old least most h.mem out.mem h.empty b bs l.0.ready.located
                  i.outside l.0.apart l.1)
                (AreEmpty-after start s old least most h.mem out.mem b h.empty l.0.ready.located
                  i.outside l.0.apart_empty a)
                (rw (full, find_block) at f))
      ]

  -- The last step, from the block that was found.
  take_object-IsHandedOut :
      (h : SmallHeap) (block : ℕ)
      → IsOffered start old h.mem s block
      → let (h', addr) = take_object h s block in IsHandedOut start old h'.mem s addr
  unfolding take_object
  take_object-IsHandedOut h block o =
      let next = read64 h.mem block + size_with_alignment s in
      record {
        block = block;
        index = o.index;
        slot = record {
          block = o.slot.block;
          sized =
              ap size_with_alignment
                (read64-write64_apart h.mem block (block + 8) next (inr (omega arith)) ∙ o.sized);
          wide = o.slot.wide;
          at = o.slot.at;
          ends = o.slot.ends;
        };
        unmarked = o.unmarked;
        advanced =
            read64-write64_self h.mem block next (omega (arith, o.slot.ends, o.slot.block.fits));
      }

  take_found-IsHandedOut :
      (found : SmallHeap × Option ℕ) (empty : List ℕ)
      → ((block : ℕ) → found.1 ≡ some block → IsOffered start old found.0.mem s block)
      → (found.1 ≡ none → empty ≡ [])
      → let (h', addr) = take_found s found in
        ((addr ≡ 0) × (empty ≡ [])) ⊎ IsHandedOut start old h'.mem s addr
  unfolding take_found
  take_found-IsHandedOut (h, none) empty o n = inl (refl, n refl)
  take_found-IsHandedOut (h, some b) empty o n = inr (take_object-IsHandedOut h b (o b refl))

take_new_block-none : (h : SmallHeap) (s : ℕ) → (take_new_block h s).1 ≡ none → h.empty ≡ []
take_new_block-none h s f = by_cases h.empty refl
  where
    by_cases : (empty : List ℕ) → h.empty ≡ empty → empty ≡ []
    by_cases [] e = refl
    by_cases (b ∷ bs) e = cc (rw (take_new_block-cons h s b bs e) at f)

-- The search fails only when there is no empty block.
find_block-none :
    (bs : List ℕ) (h : SmallHeap) (s : ℕ) → (find_block bs h s).1 ≡ none → h.empty ≡ []
unfolding find_block
find_block-none [] h s f = take_new_block-none (record h { segreg = set_entry h.segreg s [] }) s f
find_block-none (b ∷ bs) h s f =
    let out = scan_from_slider h (size_with_alignment s) b in
    let h' = record h { mem = out.mem; segreg = set_entry h.segreg s bs } in
    elim (Bool-cases out.found) [
      | inl found ↦ cc (rw found at f)
      | inr full ↦ find_block-none bs h' s (rw full at f)
    ]

-- The same from the cached block: its objects first, and then the list.
pub cached-IsOffered :
    (h : SmallHeap) (s b c : ℕ) (cache : ℕ → Option ℕ)
    → 1 ≤ s
    → s ≤ 2008
    → IsSearchable h s
    → IsListed h.start h.mem h.mem s h.empty (h.segreg s) b
    → let out = scan_from_slider h (size_with_alignment s) b in
      let h' = record h { mem = out.mem; cache = cache } in
      let found = if out.found then (h', some b) else find_block (h.segreg s) h' s in
      found.1 ≡ some c → IsOffered h.start h.mem found.0.mem s c
cached-IsOffered h s b c cache p q w l f =
    let i = IsScan-ready h.start s h.mem p q h b l.ready refl w.bytes in
    let out = scan_from_slider h (size_with_alignment s) b in
    let h' = record h { mem = out.mem; cache = cache } in
    elim (Bool-cases out.found) [
      | inl found ↦ rw found (
          let same : b ≡ c = cc (rw found at f) in
          rw (← same) (IsOffered-of_scan h.start s h.mem p q h b l.ready out l.same i found))
      | inr full ↦ rw full (
          find_block-IsOffered h.start s h.mem p q (h.segreg s) h' c refl i.bytes
            (AreListed-after h.start s h.mem p q h.mem out.mem h.empty b (h.segreg s)
              l.ready.located i.outside l.apart w.listed)
            (AreEmpty-after h.start s h.mem p q h.mem out.mem b h.empty l.ready.located i.outside
              l.apart_empty w.empties)
            (rw full at f))
    ]

cached-none :
    (h h' : SmallHeap) (bs : List ℕ) (s b : ℕ) (found : Bool)
    → h'.empty ≡ h.empty
    → (if found then (h', some b) else find_block bs h' s).1 ≡ none
    → h.empty ≡ []
cached-none h h' bs s b true e f = cc f
cached-none h h' bs s b false e f = sym e ∙ find_block-none bs h' s f

pub allocate_small_object-IsHandedOut :
    (h : SmallHeap) (s : ℕ)
    → 1 ≤ s
    → s ≤ 2008
    → IsSearchable h s
    → let (h', addr) = allocate_small_object h s in
      ((addr ≡ 0) × (h.empty ≡ [])) ⊎ IsHandedOut h.start h.mem h'.mem s addr
unfolding allocate_small_object
allocate_small_object-IsHandedOut h s p q w = elim (Option-cases (h.cache s)) [
  | inl e ↦
      rw (e, allocate_small_object)
        (take_found-IsHandedOut h.start s h.mem p q (find_block (h.segreg s) h s) h.empty
          (λ b f.
            find_block-IsOffered h.start s h.mem p q (h.segreg s) h b refl w.bytes w.listed
              w.empties f)
          (find_block-none (h.segreg s) h s))
  | inr (b, e) ↦
      rw (e, allocate_small_object)
        (take_found-IsHandedOut h.start s h.mem p q _ h.empty
          (λ c f. cached-IsOffered h s b c _ p q w (w.cached b e) f)
          (λ f. cached-none h _ (h.segreg s) s b _ refl f))
]
