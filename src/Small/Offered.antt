-- ===== src/Small/Offered.antt =====
-- The blocks that `allocate_small_object` (allocator/small-allocator.c) chooses from, and the one it finds.
use mathlib.Core.Option.{none, some}
use garbage_collector.Prelude.{
  ℕ, ◌+◌, ◌≤◌, ◌<◌, ◌≡◌, ◌≢◌, ◌⊎◌, ◌∙◌, ap, sym, true, List, [], ◌∷◌, arith, leb→le,
}
use garbage_collector.Memory.Words.{Memory, read64}
use garbage_collector.Small.Header.{size_with_alignment, init_header}
use garbage_collector.Small.Slot.{IsBlock, IsSlot, IsSlot-few, bit_at}
use garbage_collector.Small.Alloc.{
  SmallHeap, Scan, scan_fuel, scan_from_slider, init_new_block, take_new_block, allocate_new_block,
  fill_all_bitmaps_with_zeros,
}
use garbage_collector.Small.ScanProof.{AreBytes, IsScan, scan_block-IsScan}
use garbage_collector.Small.Ready.{
  IsReady, IsUnused, All, SameHeader, SameHeader-of_outside, IsReady-same, IsUnused-same,
  bit_at_same, object_size_bounds, init_header-words,
}

-- The block found for objects of `s` bytes: its slider stands on an object whose bit is clear in the
-- memory `old`.
pub record IsOffered (start : ℕ) (old m : Memory) (s block : ℕ) : Type 0 where
  pub index : ℕ
  pub slot : IsSlot start m block (size_with_alignment s) index (read64 m block)
  pub unmarked : bit_at old block index ≡ 0
  pub sized : read64 m (block + 8) ≡ s

-- A block of a list, apart from the blocks behind it and from the empty blocks, with the header that
-- it had in the memory `old`.
pub record IsListed (start : ℕ) (old m : Memory) (s : ℕ) (empty rest : List ℕ) (block : ℕ)
    : Type 0 where
  pub ready : IsReady start m s block
  pub same : SameHeader old m block
  pub apart : All (λ b. block ≢ b) rest
  pub apart_empty : All (λ b. block ≢ b) empty

abbrev pub AreListed : ℕ → Memory → Memory → ℕ → List ℕ → List ℕ → Type 0
AreListed start old m s empty [] = Unit
AreListed start old m s empty (b ∷ bs) =
    IsListed start old m s empty bs b × AreListed start old m s empty bs

pub record IsEmptyBlock (start : ℕ) (old m : Memory) (block : ℕ) : Type 0 where
  pub unused : IsUnused start m block
  pub same : SameHeader old m block

pub allocate_new_block-nil : (h : SmallHeap) → h.empty ≡ [] → allocate_new_block h ≡ (h, none)
unfolding allocate_new_block
allocate_new_block-nil h e = ground arith

allocate_new_block-cons :
    (h : SmallHeap) (b : ℕ) (bs : List ℕ)
    → h.empty ≡ b ∷ bs
    → allocate_new_block h ≡ (record h { empty = bs }, some b)
unfolding allocate_new_block
allocate_new_block-cons h b bs e = ground arith

pub take_new_block-nil :
    (h : SmallHeap) (s : ℕ)
    → h.empty ≡ []
    → take_new_block h s ≡ (fill_all_bitmaps_with_zeros h, none)
unfolding take_new_block init_new_block
take_new_block-nil h s e = ap (init_new_block s) (allocate_new_block-nil h e)

pub take_new_block-cons :
    (h : SmallHeap) (s b : ℕ) (bs : List ℕ)
    → h.empty ≡ b ∷ bs
    → take_new_block h s ≡ (record h { empty = bs; mem = init_header h.mem b s }, some b)
unfolding take_new_block init_new_block
take_new_block-cons h s b bs e = ap (init_new_block s) (allocate_new_block-cons h b bs e)

module _ (start s : ℕ) (old : Memory) (least : 1 ≤ s) (most : s ≤ 2008) where
  pub IsScan-ready :
      (h : SmallHeap) (block : ℕ) (r : IsReady start h.mem s block)
      → h.start ≡ start
      → AreBytes h.mem
      → IsScan h.mem block
          (size_with_alignment s)
          r.index
          (scan_from_slider h (size_with_alignment s) block)
  unfolding scan_from_slider
  IsScan-ready h block r e bytes =
      rw (r.slider, e)
        (scan_block-IsScan scan_fuel start block (size_with_alignment s) r.index h.mem (omega arith)
          r.inside
          (record {
            block = r.located;
            sized = ap size_with_alignment r.sized;
            wide = (object_size_bounds s least most).0;
            bytes = bytes;
          }))

  -- A scan that found an object.
  pub IsOffered-of_scan :
      (h : SmallHeap) (block : ℕ) (r : IsReady start h.mem s block) (out : Scan)
      → SameHeader old h.mem block
      → IsScan h.mem block (size_with_alignment s) r.index out
      → out.found ≡ true
      → IsOffered start old out.mem s block
  IsOffered-of_scan h block r out same i found =
      let slot : IsSlot start out.mem block (size_with_alignment s) i.to (read64 out.mem block) =
        record {
          block = r.located;
          sized = ap size_with_alignment (i.sized ∙ r.sized);
          wide = (object_size_bounds s least most).0;
          at = i.word found ∙ i.at;
          ends = omega (arith, leb→le _ _ (i.room ∙ found), i.word found);
        } in
      record {
        index = i.to;
        slot = slot;
        unmarked = sym (bit_at_same i.to (omega (arith, IsSlot-few slot)) same) ∙ i.free found;
        sized = i.sized ∙ r.sized;
      }

  IsOffered-of_new :
      (m : Memory) (block : ℕ)
      → IsEmptyBlock start old m block
      → IsOffered start old (init_header m block s) s block
  IsOffered-of_new m block e =
      let (placed, sized) =
        init_header-words m block s (omega (arith, e.unused.located.fits)) (omega arith) in
      let (low, high) = object_size_bounds s least most in
      record {
        index = 0;
        slot = record {
          block = e.unused.located;
          sized = ap size_with_alignment sized;
          wide = low;
          at = omega (arith, placed);
          ends = omega (arith, placed, high);
        };
        unmarked = sym (bit_at_same 0 (omega arith) e.same) ∙ e.unused.unmarked 0 (omega arith);
        sized = sized;
      }

  pub take_new_block-IsOffered :
      (h : SmallHeap) (empty : List ℕ) (block : ℕ)
      → h.empty ≡ empty
      → All (IsEmptyBlock start old h.mem) empty
      → (take_new_block h s).1 ≡ some block
      → IsOffered start old (take_new_block h s).0.mem s block
  take_new_block-IsOffered h [] block e a f = cc (rw (take_new_block-nil h s e) at f)
  take_new_block-IsOffered h (b ∷ bs) block e a f = rw (take_new_block-cons h s b bs e) (
      let same : b ≡ block = cc (rw (take_new_block-cons h s b bs e) at f) in
      rw (← same) (IsOffered-of_new h.mem b a.0))

  -- What a scan of the block `b` leaves true of the blocks that it does not touch.
  pub AreListed-after :
      (m n : Memory) (empty : List ℕ) (b : ℕ) (bs : List ℕ)
      → IsBlock start b
      → ((x : ℕ) → (x < b) ⊎ (b + 80 ≤ x) → n x ≡ m x)
      → All (λ c. b ≢ c) bs
      → AreListed start old m s empty bs
      → AreListed start old n s empty bs
  AreListed-after m n empty b [] p h d l = tt
  AreListed-after m n empty b (c ∷ cs) p h d l =
      let kept = SameHeader-of_outside start b c m n p l.0.ready.located d.0 h in
      (
        record {
          ready = IsReady-same n kept l.0.ready;
          same = λ x q r. kept x q r ∙ l.0.same x q r;
          apart = l.0.apart;
          apart_empty = l.0.apart_empty;
        },
        AreListed-after m n empty b cs p h d.1 l.1,
      )

  pub AreEmpty-after :
      (m n : Memory) (b : ℕ) (bs : List ℕ)
      → IsBlock start b
      → ((x : ℕ) → (x < b) ⊎ (b + 80 ≤ x) → n x ≡ m x)
      → All (λ c. b ≢ c) bs
      → All (IsEmptyBlock start old m) bs
      → All (IsEmptyBlock start old n) bs
  AreEmpty-after m n b [] p h d a = tt
  AreEmpty-after m n b (c ∷ cs) p h d a =
      let kept = SameHeader-of_outside start b c m n p a.0.unused.located d.0 h in
      (
        record {
          unused = IsUnused-same n kept a.0.unused;
          same = λ x q r. kept x q r ∙ a.0.same x q r;
        },
        AreEmpty-after m n b cs p h d.1 a.1,
      )

-- The part of the heap that an allocation of `s` bytes may look at: the list for the size, the
-- cached block if there is one, and the empty blocks, all of them different.
pub record IsSearchable (h : SmallHeap) (s : ℕ) : Type 0 where
  pub bytes : AreBytes h.mem
  pub listed : AreListed h.start h.mem h.mem s h.empty (h.segreg s)
  pub empties : All (IsEmptyBlock h.start h.mem h.mem) h.empty
  pub cached : (b : ℕ) → h.cache s ≡ some b → IsListed h.start h.mem h.mem s h.empty (h.segreg s) b
