-- ===== src/Object/BitmapMark.antt =====
-- `mark_object` of allocator/object.c on the small heap.
use mathlib.Core.Option.{some}
use native.Mathlib.Decide.{ℕ_discrete, dec_lt}
use garbage_collector.Prelude.{
  ℕ, ◌+◌, ◌*◌, ◌/◌, ◌≤◌, ◌<◌, ◌≡◌, ◌≢◌, ◌∙◌, ◌⊎◌, inl, inr, refl, sym, ap, true, false, ◌==◌,
  if◌then◌else◌, arith, Bool-cases,
}
use garbage_collector.Memory.Words.{Memory, read64, read64_same}
use garbage_collector.Small.Header.{size_with_alignment, get_block_addr, object_index}
use garbage_collector.Small.Slot.{
  IsBlock, IsCell, IsCell-few, IsCell-block, IsCell-index, bit_at, get_bit_by_address-bit_at,
}
use garbage_collector.Small.Bits.{put_bit, put_bit_outside, bit_at-put_bit, put_bit-byte}
use garbage_collector.Object.Heaps.{
  Heaps, in_small, small_object_size, get_small_object, get_object, get_object_size, set_small_mem,
  is_marked,
}
use garbage_collector.Object.Cells.{IsWellFormed, IsSmall, IsSmall-IsFound, block_of}
use garbage_collector.Object.Places.{
  IsPayload, IsObject, IsMarking, Place, small, large, Place-get_object,
}

-- A mark in the bitmap of the object's block.
module _ (h : Heaps) (object : ℕ) (w : IsWellFormed h) (s : IsSmall h object) where
  abbrev pub mem' : Memory
  mem' = put_bit h.small.mem s.base s.index 1

  few : s.index < 512
  few = omega (arith, IsCell-few s.cell)

  outside_bitmap : (x : ℕ) → (x < s.base + 16) ⊎ (s.base + 80 ≤ x) → mem' x ≡ h.small.mem x
  outside_bitmap x out = put_bit_outside h.small.mem s.base s.index 1 x few out

  -- The size words of the blocks are no bytes of a bitmap.
  apart_from_sizes :
      (block x : ℕ)
      → IsBlock h.small.start block
      → block + 8 ≤ x
      → x < block + 16
      → (x < s.base + 16) ⊎ (s.base + 80 ≤ x)
  apart_from_sizes block x b p q = elim (dec_lt x (s.base + 16)) [
    | yes l ↦ inl l
    | no n ↦ inr (omega (arith, s.cell.block.aligned, s.cell.block.above, b.aligned, b.above))
  ]

  size_word :
      (block : ℕ)
      → IsBlock h.small.start block
      → read64 mem' (block + 8) ≡ read64 h.small.mem (block + 8)
  size_word block b =
      read64_same mem' h.small.mem (block + 8)
        (λ x p q. outside_bitmap x (apart_from_sizes block x b p (omega arith)))

  same_size :
      (x : ℕ)
      → in_small h x ≡ true
      → small_object_size (set_small_mem h mem') x ≡ small_object_size h x
  unfolding small_object_size
  same_size x inside =
      let (b, _, _, _) =
        block_of h.small.start w.blocks h.small_end x w.whole w.small_fits (ground (arith, inside))
          (ground (arith, inside)) in
      rw (size_word (get_block_addr h.small.start x) b) refl

  same_object : (x : ℕ) → get_object (set_small_mem h mem') x ≡ get_object h x
  unfolding get_object get_small_object
  same_object x = elim (Bool-cases (in_small h x)) [
    | inl inside ↦ rw (same_size x inside) refl
    | inr out ↦ rw out refl
  ]

  same_sizes : (x : ℕ) → get_object_size (set_small_mem h mem') x ≡ get_object_size h x
  unfolding get_object_size
  same_sizes x = elim (Bool-cases (in_small h x)) [
    | inl inside ↦ rw (same_size x inside) refl
    | inr out ↦ rw out refl
  ]

  payload : (x : ℕ) → IsPayload h x → mem' x ≡ h.small.mem x
  payload x far = elim (dec_lt x (s.base + 16)) [
    | yes l ↦ outside_bitmap x (inl l)
    | no n ↦ elim (dec_lt x (s.base + 80)) [
      | yes l ↦
          let inside : in_small h x ≡ true = ground (arith, s.cell.block.above, s.inside) in
          absurd (omega (arith, far inside, s.cell.block.aligned, s.cell.block.above))
      | no m ↦ outside_bitmap x (inr (omega arith))
    ]
  ]

  moved : (p : ℕ) (t : IsSmall h p) → IsCell h.small.start mem' t.base t.size t.index p
  moved p t = record {
    block = t.cell.block;
    sized = rw (size_word t.base t.cell.block) t.cell.sized;
    wide = t.cell.wide;
    at = t.cell.at;
    starts = t.cell.starts;
  }

  -- The bit of the object itself,
  own_bit : (p : ℕ) (t : IsSmall h p) → p ≡ object → bit_at mem' t.base t.index ≡ 1
  own_bit p t e =
      let base : t.base ≡ s.base =
        sym (IsCell-block t.cell) ∙ ap (get_block_addr h.small.start) e ∙ IsCell-block s.cell in
      let index : t.index ≡ s.index =
        sym (IsCell-index t.cell)
        ∙ ap (object_index h.small.start h.small.mem) e
        ∙ IsCell-index s.cell in
      rw
        (base, index, bit_at-put_bit h.small.mem s.base s.index 1 s.index (w.bytes _) (omega arith))
        (ground arith)

  -- and that of another.
  other_bit :
      (p : ℕ) (t : IsSmall h p)
      → p ≢ object
      → bit_at mem' t.base t.index ≡ bit_at h.small.mem t.base t.index
  other_bit p t n = elim (ℕ_discrete t.base s.base) [
    | yes e ↦
        let size : t.size ≡ s.size =
          sym t.cell.sized
          ∙ ap (λ b. size_with_alignment (read64 h.small.mem (b + 8))) e
          ∙ s.cell.sized in
        rw (e, bit_at-put_bit h.small.mem s.base s.index 1 t.index (w.bytes _) (omega arith))
          (elim (ℕ_discrete s.index t.index) [
            | yes same ↦ absurd (
                n (
                  t.cell.at
                  ∙ ap (λ b. b + 80 + t.index * t.size) e
                  ∙ ap (λ z. s.base + 80 + t.index * z) size
                  ∙ ap (λ i. s.base + 80 + i * s.size) (sym same)
                  ∙ sym s.cell.at))
            | no differ ↦ ground arith
          ])
    | no apart ↦
        let byte : mem' (t.base + 16 + t.index / 8) ≡ h.small.mem (t.base + 16 + t.index / 8) =
          outside_bitmap (t.base + 16 + t.index / 8) (beside t apart) in
        rw byte refl
  ]
    where
      beside :
          (t : IsSmall h p)
          → t.base ≢ s.base
          → (t.base + 16 + t.index / 8 < s.base + 16) ⊎ (s.base + 80 ≤ t.base + 16 + t.index / 8)
      beside t apart = elim (dec_lt t.base s.base) [
        | yes l ↦ inl (
            omega (
              arith,
              IsCell-few t.cell,
              s.cell.block.aligned,
              s.cell.block.above,
              t.cell.block.aligned,
              t.cell.block.above,
            ))
        | no m ↦ inr (
            omega (
              arith, s.cell.block.aligned, s.cell.block.above, t.cell.block.aligned,
              t.cell.block.above,
            ))
      ]

  small_marks :
      (p : ℕ)
      → IsObject h p
      → is_marked (set_small_mem h mem') p ≡ (if p == object then some true else is_marked h p)
  unfolding is_marked
  small_marks p is_object = place (Place-get_object h p p w is_object)
    where
      place :
          Place h p
          → is_marked (set_small_mem h mem') p ≡ (if p == object then some true else is_marked h p)
      place (large inside _ _) =
          let apart : (p == object) ≡ false =
            ground (arith, (IsSmall-IsFound h object w s).not_large) in
          rw (inside, apart) refl
      place (small t) =
          let f = IsSmall-IsFound h p w t in
          rw
            (
              f.not_large,
              f.in_small,
              get_bit_by_address-bit_at (moved p t),
              get_bit_by_address-bit_at t.cell,
            )
            (elim (ℕ_discrete p object) [
              | yes e ↦ rw (own_bit p t e) (ground arith)
              | no n ↦ rw (other_bit p t n) (ground arith)
            ])

  pub small-IsMarking : IsMarking h (set_small_mem h mem') object
  small-IsMarking = record {
    well_formed = record {
      blocks = w.blocks;
      whole = w.whole;
      small_fits = w.small_fits;
      large_fits = w.large_fits;
      apart = w.apart;
      bytes = put_bit-byte h.small.mem s.base s.index 1 w.bytes;
      laid = w.laid;
    };
    small_start = refl;
    small_end = refl;
    large_end = refl;
    objects = same_object;
    sizes = λ p _. same_sizes p;
    marks = small_marks;
    bytes = payload;
  }
