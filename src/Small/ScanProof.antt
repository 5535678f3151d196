-- ===== src/Small/ScanProof.antt =====
-- The inner loop of `allocate_small_object` (allocator/small-allocator.c) finds the first object at or
-- behind the slider whose bit is clear, and clears the bits that it passes.
use native.Mathlib.Decide.{ℕ_discrete}
use garbage_collector.Prelude.{
  ℕ, zero, suc, ◌+◌, ◌-◌, ◌*◌, ◌/◌, ◌%◌, ◌^◌, ◌≤◌, ◌<◌, ◌≡◌, ◌∙◌, ◌⊎◌, refl, true, false, ◌&&◌,
  ◌==◌, leb, ltb, if◌then◌else◌, arith, inl, inr, leb→le, ==→eq, Bool-cases, size_mod,
}
use garbage_collector.Memory.Words.{
  Memory, byte_of, read64, write64, write64_outside, read64-write64_self, read64-write64_apart,
}
use garbage_collector.Small.Header.{size_with_alignment}
use garbage_collector.Small.Slot.{
  IsBlock, IsSlot, IsSlot-few, IsSlot-IsCell, bit_at, get_bit_by_address-bit_at,
}
use garbage_collector.Small.Bits.{
  put_bit, put_bit_outside, put_bit-byte, bit_at-put_bit, set_bit_by_address-put_bit,
}
use garbage_collector.Small.Marks.{put_bit-size}
use garbage_collector.Small.Alloc.{Scan, scan_block}

abbrev pub AreBytes : Memory → Type 0
AreBytes m = (x : ℕ) → m x < 256

-- The block `base` with objects of `size` bytes.
pub record IsSized (start : ℕ) (m : Memory) (base size : ℕ) : Type 0 where
  pub block : IsBlock start base
  pub sized : size_with_alignment (read64 m (base + 8)) ≡ size
  pub wide : 8 ≤ size
  pub bytes : AreBytes m

-- What the scan of the block from object number `from` gives; `to` is the number where it stops.
pub record IsScan (m : Memory) (base size from : ℕ) (out : Scan) : Type 0 where
  pub to : ℕ
  pub onward : from ≤ to
  pub at : out.slider ≡ base + 80 + to * size
  pub room : leb (out.slider + size) (base + 4096) ≡ out.found
  pub free : out.found ≡ true → bit_at m base to ≡ 0
  pub word : out.found ≡ true → read64 out.mem base ≡ out.slider
  pub taken : (i : ℕ) → from ≤ i → i < to → bit_at m base i ≡ 1
  pub bits :
      (i : ℕ) → bit_at out.mem base i ≡ (if leb from i && ltb i to then 0 else bit_at m base i)
  pub outside : (x : ℕ) → (x < base) ⊎ (base + 80 ≤ x) → out.mem x ≡ m x
  pub sized : read64 out.mem (base + 8) ≡ read64 m (base + 8)
  pub bytes : AreBytes out.mem

pub write64-byte : (m : Memory) (a v : ℕ) → AreBytes m → AreBytes (write64 m a v)
unfolding write64 byte_of
write64-byte m a v h x = ground (arith, h x, small)
  where
    small : v / 256 ^ (x - a) % 256 < 256
    small = omega arith

bit_at-le : (m : Memory) (base i : ℕ) → bit_at m base i ≤ 1
bit_at-le m base i = omega arith

one_of_nonzero : (b : ℕ) → b ≤ 1 → (b == 0) ≡ false → b ≡ 1
one_of_nonzero b h n = ground arith

bit_at-write64 : (m : Memory) (base v i : ℕ) → bit_at (write64 m base v) base i ≡ bit_at m base i
bit_at-write64 m base v i = rw (write64_outside m base v (base + 16 + i / 8) (inr (omega arith)))

-- The object at the slider is free.
IsScan-found :
    (base size from : ℕ) (m : Memory)
    → base + 4096 < size_mod
    → AreBytes m
    → leb (base + 80 + from * size + size) (base + 4096) ≡ true
    → bit_at m base from ≡ 0
    → let slider = base + 80 + from * size in
      IsScan m base size from
        (record { mem = write64 m base slider; slider = slider; found = true })
IsScan-found base size from m fits bytes room clear = record {
  to = from;
  onward = omega arith;
  at = refl;
  room = room;
  free = λ e. clear;
  word = λ e. read64-write64_self m base _ (omega (arith, leb→le _ _ room));
  taken = λ i a b. absurd (omega arith);
  bits = λ i. rw (bit_at-write64 m base (base + 80 + from * size) i) (ground arith);
  outside = λ x h. write64_outside m base _ x (aside x h);
  sized = read64-write64_apart m base (base + 8) _ (inr (omega arith));
  bytes = write64-byte m base _ bytes;
}
  where
    aside : (x : ℕ) → (x < base) ⊎ (base + 80 ≤ x) → (x < base) ⊎ (base + 8 ≤ x)
    aside x (inl h) = inl h
    aside x (inr h) = inr (omega arith)

-- The object at the slider is taken: its bit is cleared, and the scan goes on behind it.
IsScan-next :
    (base size from : ℕ) (m : Memory) (out : Scan)
    → from < 502
    → AreBytes m
    → bit_at m base from ≡ 1
    → IsScan (put_bit m base from 0) base size (suc from) out
    → IsScan m base size from out
IsScan-next base size from m out few bytes set i =
    let bit = λ (j : ℕ). bit_at-put_bit m base from 0 j (bytes _) (omega arith) in
    record {
      to = i.to;
      onward = omega (arith, i.onward);
      at = i.at;
      room = i.room;
      free = λ e. ground (arith, bit i.to, i.free e, i.onward);
      word = i.word;
      taken = λ j p q. elim (ℕ_discrete from j) [
        | yes e ↦ rw (← e) set
        | no n ↦ ground (arith, bit j, i.taken j (omega arith) q)
      ];
      bits = λ j. ground (arith, bit j, i.bits j, i.onward);
      outside = λ x h. i.outside x h ∙ put_bit_outside m base from 0 x (omega arith) (aside x h);
      sized = i.sized ∙ put_bit-size m base from 0 (omega arith);
      bytes = i.bytes;
    }
  where
    aside : (x : ℕ) → (x < base) ⊎ (base + 80 ≤ x) → (x < base + 16) ⊎ (base + 80 ≤ x)
    aside x (inl h) = inl (omega arith)
    aside x (inr h) = inr h

-- The scan of a block whose objects take at least 8 bytes, from an object number inside the block
-- and with as many rounds as there can be objects: it stops at an object number; all objects
-- passed were marked, and their bits and no others are cleared; it reports an object exactly when
-- that one fits in the block, and then its bit was clear and the slider in the header stands on
-- it; nothing outside the header changes.
pub scan_block-IsScan :
    (fuel start base size from : ℕ) (m : Memory)
    → 502 < from + fuel
    → from * size ≤ 4016
    → IsSized start m base size
    → IsScan m base size from (scan_block fuel start base size (base + 80 + from * size) m)
unfolding scan_block
scan_block-IsScan zero start base size from m p q s = absurd (far from size p q s.wide)
  where
    far : (k n : ℕ) → 502 < k + 0 → k * n ≤ 4016 → 8 ≤ n → ⊥
    far k n a b c = grind arith
scan_block-IsScan (suc fuel) start base size from m p q s =
    elim (Bool-cases (leb (base + 80 + from * size + size) (base + 4096))) [
      | inr full ↦
          rw (full, scan_block)
            (record {
              to = from;
              onward = omega arith;
              at = refl;
              room = full;
              free = λ e. cc;
              word = λ e. cc;
              taken = λ i a b. absurd (omega arith);
              bits = λ i. ground arith;
              outside = λ x h. refl;
              sized = refl;
              bytes = s.bytes;
            })
      | inl fits ↦
          let slot : IsSlot start m base size from (base + 80 + from * size) = record {
            block = s.block;
            sized = s.sized;
            wide = s.wide;
            at = refl;
            ends = leb→le _ _ fits;
          } in
          elim (Bool-cases (bit_at m base from == 0)) [
            | inl clear ↦
                rw (fits, scan_block, get_bit_by_address-bit_at (IsSlot-IsCell slot), clear)
                  (IsScan-found base size from m s.block.fits s.bytes fits (==→eq _ _ clear))
            | inr set ↦
                let few = IsSlot-few slot in
                let behind : base + 80 + from * size + size ≡ base + 80 + suc from * size =
                  omega arith in
                let m' = put_bit m base from 0 in
                rw
                  (
                    fits,
                    scan_block,
                    get_bit_by_address-bit_at (IsSlot-IsCell slot),
                    set,
                    set_bit_by_address-put_bit 0 (IsSlot-IsCell slot),
                    behind,
                  )
                  (IsScan-next base size from m _ few s.bytes
                    (one_of_nonzero _ (bit_at-le m base from) set)
                    (scan_block-IsScan fuel start base size (suc from) m' (omega arith)
                      (omega (arith, slot.ends))
                      (record {
                        block = s.block;
                        sized = rw (put_bit-size m base from 0 (omega arith)) s.sized;
                        wide = s.wide;
                        bytes = put_bit-byte m base from 0 s.bytes;
                      })))
          ]
    ]
