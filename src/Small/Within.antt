-- ===== src/Small/Within.antt =====
-- The blocks that `allocate_small_object` and `__init_small_allocator` (allocator/small-allocator.c) and
-- `sweep_small_heap` (sweeper/sweep.c) have in their lists are blocks of the heap's nodes.
use mathlib.Core.Option.{Option, none, some}
use mathlib.Core.Path.{subst}
use garbage_collector.Prelude.{
  ℕ, ◌+◌, ◌≤◌, ◌≡◌, refl, Bool, true, false, List, [], ◌∷◌, inl, inr, Bool-cases, Option-cases,
  ◌==◌, leb, ltb, if◌then◌else◌,
}
use garbage_collector.Memory.Words.{read64}
use garbage_collector.Small.Header.{block_size, size_with_alignment}
use garbage_collector.Small.Alloc.{
  SmallHeap, set_entry, scan_from_slider, take_new_block, find_block, take_object, take_found,
  fill_all_bitmaps_with_zeros, allocate_small_object,
}
use garbage_collector.Small.Ready.{All}
use garbage_collector.Small.Offered.{take_new_block-nil, take_new_block-cons}

-- Whatever the heap's lists and its cache name has the property.
pub record IsWithin (P : ℕ → Type 0) (h : SmallHeap) : Type 0 where
  pub lists : (s : ℕ) → All P (h.segreg s)
  pub empties : All P h.empty
  pub caches : (s b : ℕ) → s ≤ 2008 → h.cache s ≡ some b → P b

module _ (P : ℕ → Type 0) where
  -- A heap, and a block that is taken out, if any.
  abbrev Holds : SmallHeap × Option ℕ → Type 0
  Holds (h, o) = IsWithin P h × ((b : ℕ) → o ≡ some b → P b)

  lists-set_entry :
      (f : ℕ → List ℕ) (s : ℕ) (bs : List ℕ)
      → ((t : ℕ) → All P (f t))
      → All P bs
      → (t : ℕ) → All P (set_entry f s bs t)
  lists-set_entry f s bs a new t = elim (Bool-cases (s == t)) [
    | inl e ↦ rw e new
    | inr e ↦ rw e (a t)
  ]

  caches-set_entry :
      (f : ℕ → Option ℕ) (s : ℕ) (new : Option ℕ)
      → ((t b : ℕ) → t ≤ 2008 → f t ≡ some b → P b)
      → ((b : ℕ) → new ≡ some b → P b)
      → (t b : ℕ) → t ≤ 2008
      → set_entry f s new t ≡ some b
      → P b
  caches-set_entry f s new a own t b p e = elim (Bool-cases (s == t)) [
    | inl x ↦ own b (rw x at e)
    | inr x ↦ a t b p (rw x at e)
  ]

  one_of : (b : ℕ) (full : Bool) (a : ℕ) → P b → (if full then none else some b) ≡ some a → P a
  one_of b true a p e = cc e
  one_of b false a p e = let same : b ≡ a = cc e in subst P same p

  take_new_block-Holds :
      (h : SmallHeap) (s : ℕ) (empty : List ℕ)
      → h.empty ≡ empty
      → IsWithin P h
      → Holds (take_new_block h s)
  unfolding fill_all_bitmaps_with_zeros
  take_new_block-Holds h s [] e w =
      rw (take_new_block-nil h s e)
        (record { lists = w.lists; empties = w.empties; caches = w.caches }, λ b f. cc f)
  take_new_block-Holds h s (b ∷ bs) e w =
      let all = subst (All P) e w.empties in
      rw (take_new_block-cons h s b bs e) (
        record { lists = w.lists; empties = all.1; caches = w.caches },
        λ a f. let same : b ≡ a = cc f in subst P same all.0,
      )

  find_block-Holds :
      (bs : List ℕ) (h : SmallHeap) (s : ℕ) → All P bs → IsWithin P h → Holds (find_block bs h s)
  unfolding find_block
  find_block-Holds [] h s a w =
      take_new_block-Holds (record h { segreg = set_entry h.segreg s [] }) s h.empty refl
        (record {
          lists = lists-set_entry h.segreg s [] w.lists tt;
          empties = w.empties;
          caches = w.caches;
        })
  find_block-Holds (b ∷ bs) h s a w =
      let out = scan_from_slider h (size_with_alignment s) b in
      let h' = record h { mem = out.mem; segreg = set_entry h.segreg s bs } in
      let w' : IsWithin P h' = record {
        lists = lists-set_entry h.segreg s bs w.lists a.1;
        empties = w.empties;
        caches = w.caches;
      } in
      elim (Bool-cases out.found) [
        | inl e ↦ rw e (w', λ c f. let same : b ≡ c = cc f in subst P same a.0)
        | inr e ↦ rw e (find_block-Holds bs h' s a.1 w')
      ]

  take_found-IsWithin : (s : ℕ) (r : SmallHeap × Option ℕ) → Holds r → IsWithin P (take_found s r).0
  unfolding take_found take_object
  take_found-IsWithin s (h, none) (w, o) = w
  take_found-IsWithin s (h, some b) (w, o) =
      let next = read64 h.mem b + size_with_alignment s in
      record {
        lists = w.lists;
        empties = w.empties;
        caches =
            caches-set_entry h.cache s (if leb (b + block_size) next then none else some b) w.caches
              (λ a e. one_of b (leb (b + block_size) next) a (o b refl) e);
      }

  cached-Holds :
      (k : SmallHeap) (s b : ℕ) (found : Bool)
      → IsWithin P k
      → P b
      → Holds (if found then (k, some b) else find_block (k.segreg s) k s)
  cached-Holds k s b true w p = (w, λ a e. let same : b ≡ a = cc e in subst P same p)
  cached-Holds k s b false w p = find_block-Holds (k.segreg s) k s (w.lists s) w

  pub allocate_small_object-IsWithin :
      (h : SmallHeap) (s : ℕ) → s ≤ 2008 → IsWithin P h → IsWithin P (allocate_small_object h s).0
  unfolding allocate_small_object
  allocate_small_object-IsWithin h s p w = elim (Option-cases (h.cache s)) [
    | inl e ↦
        rw (e, allocate_small_object)
          (take_found-IsWithin s (find_block (h.segreg s) h s)
            (find_block-Holds (h.segreg s) h s (w.lists s) w))
    | inr (b, e) ↦
        let out = scan_from_slider h (size_with_alignment s) b in
        let full = ltb (b + block_size) (out.slider + size_with_alignment s) in
        let new : Option ℕ = if full then none else some b in
        let k = record h { mem = out.mem; cache = set_entry h.cache s new } in
        let here = w.caches s b p e in
        let w' : IsWithin P k = record {
          lists = w.lists;
          empties = w.empties;
          caches = caches-set_entry h.cache s new w.caches (λ a f. one_of b full a here f);
        } in
        rw (e, allocate_small_object)
          (take_found-IsWithin s (if out.found then (k, some b) else find_block (k.segreg s) k s)
            (cached-Holds k s b out.found w' here))
  ]
