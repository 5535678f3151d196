-- ===== src/Small/Marks.antt =====
-- `get_bit_by_address` and `set_bit_by_address` of allocator/bitmap.c on the objects of a block.
use garbage_collector.Prelude.{ℕ, ◌+◌, ◌/◌, ◌≤◌, ◌<◌, ◌≡◌, ◌==◌, if◌then◌else◌, arith, inl}
use garbage_collector.Memory.Words.{Memory, read64, read64_same}
use garbage_collector.Small.Header.{get_bit_by_address, set_bit_by_address}
use garbage_collector.Small.Slot.{IsCell, IsCell-few, get_bit_by_address-bit_at}
use garbage_collector.Small.Bits.{
  put_bit, put_bit_outside, bit_at-put_bit, set_bit_by_address-put_bit,
}

pub put_bit-size :
    (m : Memory) (base index bit : ℕ)
    → index < 512
    → read64 (put_bit m base index bit) (base + 8) ≡ read64 m (base + 8)
put_bit-size m base index bit h =
    read64_same (put_bit m base index bit) m (base + 8)
      (λ x p q. put_bit_outside m base index bit x h (inl (omega arith)))

pub IsCell-put_bit :
    {start base size j addr : ℕ} {m : Memory} (i bit : ℕ)
    → i < 512
    → IsCell start m base size j addr
    → IsCell start (put_bit m base i bit) base size j addr
IsCell-put_bit {base = base} {m = m} i bit h s = record {
  block = s.block;
  sized = rw (put_bit-size m base i bit h) s.sized;
  wide = s.wide;
  at = s.at;
  starts = s.starts;
}

-- For two objects of a block: after the bit of one is written, reading the bit of the other gives
-- what was written if they are one object, and what it gave before if not.
pub get_bit_by_address-set_bit_by_address :
    {start base size i j a b : ℕ} {m : Memory} (bit : ℕ)
    → IsCell start m base size i a
    → IsCell start m base size j b
    → m (base + 16 + i / 8) < 256
    → bit ≤ 1
    → get_bit_by_address start (set_bit_by_address start m a bit) b
      ≡ (if i == j then bit else get_bit_by_address start m b)
get_bit_by_address-set_bit_by_address {start} {base} {size} {i} {j} {a} {b} {m} bit s t byte small =
    rw
      (
        set_bit_by_address-put_bit bit s,
        get_bit_by_address-bit_at (IsCell-put_bit i bit (omega (arith, IsCell-few s)) t),
        get_bit_by_address-bit_at t,
      )
      (bit_at-put_bit m base i bit j byte small)
