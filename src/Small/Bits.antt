-- ===== src/Small/Bits.antt =====
-- Bits of a byte, and `set_bit_by_address` of allocator/bitmap.c.
use Prim.Native.Nat.{bit_xor}
use native.Mathlib.Decide.{ℕ_discrete}
use garbage_collector.Prelude.{
  ℕ, zero, suc, false, ◌+◌, ◌-◌, ◌/◌, ◌%◌, ◌^◌, ◌≤◌, ◌<◌, ◌≡◌, ◌⊎◌, refl, Bool, true, ◌==◌,
  if◌then◌else◌, arith, ==→eq, Bool-cases, inl, inr, leb, leb→le,
}
use garbage_collector.Memory.Words.{Memory, write8}
use garbage_collector.Small.Header.{set_bit_by_address}
use garbage_collector.Small.Slot.{IsCell, IsCell-block, IsCell-index, bit_at}

-- A test passes at every number below the bound.
passes_below : (ℕ → Bool) → ℕ → Bool
passes_below test zero = true
passes_below test (suc bound) = if test bound then passes_below test bound else false

passes_at :
    (test : ℕ → Bool) (bound k : ℕ) → k < bound → passes_below test bound ≡ true → test k ≡ true
unfolding passes_below
passes_at test zero k small ok = absurd (omega arith)
passes_at test (suc bound) k small ok = elim (ℕ_discrete k bound) [
  | yes last ↦ ground arith
  | no earlier ↦ ground (arith, passes_at test bound k (omega arith))
]

-- Bit k of the byte b with its bit j flipped.
abbrev flipped : ℕ → ℕ → ℕ → ℕ
flipped b j k = bit_xor b (2 ^ j) / 2 ^ k % 2

abbrev flip_ok : ℕ → ℕ → ℕ → Bool
flip_ok b j k = flipped b j k == (if j == k then 1 - b / 2 ^ k % 2 else b / 2 ^ k % 2)

flip_table : passes_below (λ b. passes_below (λ j. passes_below (flip_ok b j) 8) 8) 256 ≡ true
unfolding passes_below
flip_table = refl

byte_table : passes_below (λ b. passes_below (λ j. leb (bit_xor b (2 ^ j)) 255) 8) 256 ≡ true
unfolding passes_below
byte_table = refl

flipped-eq :
    (b j k : ℕ)
    → b < 256
    → j < 8
    → k < 8
    → flipped b j k ≡ (if j == k then 1 - b / 2 ^ k % 2 else b / 2 ^ k % 2)
flipped-eq b j k p q r =
    ==→eq _ _ (passes_at _ 8 k r (passes_at _ 8 j q (passes_at _ 256 b p flip_table)))

flip-byte : (b j : ℕ) → b < 256 → j < 8 → bit_xor b (2 ^ j) < 256
flip-byte b j p q =
    let h = leb→le _ _ (passes_at _ 8 j q (passes_at _ 256 b p byte_table)) in omega arith

-- Writing `bit` at number `index` of the bitmap.
pub put_bit : Memory → ℕ → ℕ → ℕ → Memory
unfolding write8
put_bit m base index bit =
    if bit_at m base index == bit
    then m
    else write8 m (base + 16 + index / 8) (bit_xor (m (base + 16 + index / 8)) (2 ^ (index % 8)))

pub set_bit_by_address-put_bit :
    {start base size index addr : ℕ} {m : Memory} (bit : ℕ)
    → IsCell start m base size index addr
    → set_bit_by_address start m addr bit ≡ put_bit m base index bit
unfolding set_bit_by_address put_bit
set_bit_by_address-put_bit bit s = rw (IsCell-index s, IsCell-block s)

-- Only the one byte of the bitmap can change.
pub put_bit_outside :
    (m : Memory) (base index bit x : ℕ)
    → index < 512
    → (x < base + 16) ⊎ (base + 80 ≤ x)
    → put_bit m base index bit x ≡ m x
unfolding put_bit write8
put_bit_outside m base index bit x h (inl p) = ground arith
put_bit_outside m base index bit x h (inr p) = ground arith

-- Another byte keeps its bits; in the byte itself the bits are those of the table.
bit_at-write8 :
    (m : Memory) (base i v j : ℕ)
    → bit_at (write8 m (base + 16 + i / 8) v) base j
      ≡ (if i / 8 == j / 8 then v / 2 ^ (j % 8) % 2 else bit_at m base j)
unfolding write8
bit_at-write8 m base i v j = elim (ℕ_discrete (i / 8) (j / 8)) [
  | yes e ↦ rw e (ground arith)
  | no n ↦ ground arith
]

bit_at-same_byte :
    (m : Memory) (base i j : ℕ)
    → i / 8 ≡ j / 8
    → m (base + 16 + i / 8) / 2 ^ (j % 8) % 2 ≡ bit_at m base j
bit_at-same_byte m base i j e = rw e

bit_at-le : (m : Memory) (base i : ℕ) → bit_at m base i ≤ 1
bit_at-le m base i = omega arith

-- After the write the bit is what was written, and every other bit of the block is what it was.
pub bit_at-put_bit :
    (m : Memory) (base i bit j : ℕ)
    → m (base + 16 + i / 8) < 256
    → bit ≤ 1
    → bit_at (put_bit m base i bit) base j ≡ (if i == j then bit else bit_at m base j)
unfolding put_bit
bit_at-put_bit m base i bit j byte small = elim (Bool-cases (bit_at m base i == bit)) [
  | inl same ↦
      rw (same, put_bit)
        (elim (ℕ_discrete i j) [ yes e ↦ rw (← e) (ground arith) | no n ↦ ground arith ])
  | inr differs ↦
      rw (differs, put_bit, bit_at-write8 m base i _ j)
        (elim (ℕ_discrete i j) [
          | yes e ↦
              rw
                (
                  ← e,
                  flipped-eq (m (base + 16 + i / 8)) (i % 8) (i % 8) byte (omega arith)
                      (omega arith),
                )
                (ground (arith, bit_at-le m base i))
          | no n ↦ elim (ℕ_discrete (i / 8) (j / 8)) [
            | yes e ↦ ground (
              arith,
              flipped-eq (m (base + 16 + i / 8)) (i % 8) (j % 8) byte,
              bit_at-same_byte m base i j e,
            )
            | no d ↦ ground arith
          ]
        ])
]

pub put_bit-byte :
    (m : Memory) (base i bit : ℕ) → ((x : ℕ) → m x < 256) → (x : ℕ) → put_bit m base i bit x < 256
unfolding put_bit write8
put_bit-byte m base i bit h x =
    ground (arith, h x, flip-byte (m (base + 16 + i / 8)) (i % 8) (h (base + 16 + i / 8)))
