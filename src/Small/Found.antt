-- ===== src/Small/Found.antt =====
-- The search for a block in allocator/small-allocator.c, for the other blocks.
use mathlib.Core.Path.{subst, fun_ext}
use mathlib.Core.Option.{Option}
use garbage_collector.Prelude.{
  ℕ, ◌≤◌, ◌≡◌, refl, sym, List, [], ◌∷◌, arith, inl, inr, Bool-cases, ◌==◌,
}
use garbage_collector.Small.Header.{size_with_alignment}
use garbage_collector.Small.Alloc.{SmallHeap, set_entry, scan_from_slider, find_block}
use garbage_collector.Small.Offered.{IsListed, IsScan-ready}
use garbage_collector.Small.Core.{
  IsCore, IsDetached, IsCore-change, IsDetached-listed, IsCore-pop, set_entry_self,
}
use garbage_collector.Small.Fresh.{Found, take_new_block-Found, take_new_block-cache}

set_entry_twice :
    {V : Type 0} (f : ℕ → V) (s : ℕ) (v w : V) → set_entry f s w ≡ set_entry (set_entry f s v) s w
set_entry_twice f s v w = fun_ext (λ t. at t)
  where
    at : (t : ℕ) → set_entry f s w t ≡ set_entry (set_entry f s v) s w t
    at t = elim (Bool-cases (s == t)) [ inl e ↦ rw e refl | inr e ↦ rw e refl ]

pub set_entry_same : {V : Type 0} (f : ℕ → V) (s : ℕ) → f ≡ set_entry f s (f s)
set_entry_same f s = fun_ext (λ t. at t)
  where
    at : (t : ℕ) → f t ≡ set_entry f s (f s) t
    at t = elim (Bool-cases (s == t)) [
      | inl e ↦ let same : s ≡ t = ground (arith, e) in rw (e, same) refl
      | inr e ↦ rw e refl
    ]

module _ (s : ℕ) (least : 1 ≤ s) (most : s ≤ 2008) where
  -- A scan of a block that is taken out changes nothing else.
  pub IsCore-scan :
      (h : SmallHeap) (f : ℕ → List ℕ) (cache : ℕ → Option ℕ) (b : ℕ)
      → IsCore h.start h.mem f h.empty cache s
      → IsListed h.start h.mem h.mem s h.empty (f s) b
      → let out = scan_from_slider h (size_with_alignment s) b in
        IsCore h.start out.mem f h.empty cache s × IsDetached h.start f h.empty cache s b
  IsCore-scan h f cache b c l =
      let i = IsScan-ready h.start s h.mem least most h b l.ready refl c.bytes in
      let d = IsDetached-listed h.start h.mem f h.empty cache s b c l in
      let out = scan_from_slider h (size_with_alignment s) b in
      (IsCore-change h.start h.mem out.mem f h.empty cache s b d i.bytes i.outside c, d)

  pub find_block-Found :
      (bs : List ℕ) (h : SmallHeap)
      → IsCore h.start h.mem (set_entry h.segreg s bs) h.empty h.cache s
      → Found s (find_block bs h s)
  unfolding find_block
  find_block-Found [] h c =
      take_new_block-Found (record h { segreg = set_entry h.segreg s [] }) s h.empty refl c
  find_block-Found (b ∷ bs) h c =
      let f = set_entry h.segreg s bs in
      let out = scan_from_slider h (size_with_alignment s) b in
      let (popped, l) = IsCore-pop h.start h.mem h.segreg h.empty h.cache s b bs least most c in
      let own =
        subst (λ z. IsListed h.start h.mem h.mem s h.empty z b) (sym (set_entry_self h.segreg s bs))
          l in
      let (kept, d) = IsCore-scan h f h.cache b popped own in
      let h' = record h { mem = out.mem; segreg = f } in
      let again =
        subst (λ z. IsCore h.start out.mem z h.empty h.cache s) (set_entry_twice h.segreg s bs bs)
          kept in
      elim (Bool-cases out.found) [
        | inl e ↦ rw e (kept, d)
        | inr e ↦ rw e (find_block-Found bs h' again)
      ]

  pub find_block-cache : (bs : List ℕ) (h : SmallHeap) → (find_block bs h s).0.cache ≡ h.cache
  unfolding find_block
  find_block-cache [] h =
      take_new_block-cache (record h { segreg = set_entry h.segreg s [] }) s h.empty refl
  find_block-cache (b ∷ bs) h =
      let out = scan_from_slider h (size_with_alignment s) b in
      let h' = record h { mem = out.mem; segreg = set_entry h.segreg s bs } in
      elim (Bool-cases out.found) [ inl e ↦ rw e refl | inr e ↦ rw e (find_block-cache bs h') ]
