-- ===== src/Memory/Words.antt =====
-- Bytes and 8-byte words of memory.
use garbage_collector.Prelude.{
  ℕ, zero, suc, ◌+◌, ◌-◌, ◌*◌, ◌/◌, ◌%◌, ◌^◌, ◌≤◌, ◌<◌, ◌≡◌, ◌⊎◌, refl, ap, ◌&&◌, leb, ltb, ◌==◌,
  if◌then◌else◌, arith, size_mod, inl, inr,
}

abbrev pub Memory : Type 0
Memory = ℕ → ℕ

-- Byte number i of a word.
unfoldable pub byte_of : ℕ → ℕ → ℕ
byte_of v i = v / 256 ^ i % 256

unfoldable pub write8 : Memory → ℕ → ℕ → Memory
write8 m a v x = if x == a then v else m x

-- `*(size_t*)a`
unfoldable pub read64 : Memory → ℕ → ℕ
read64 m a =
    m a
    + 256 * m (a + 1)
    + 256 ^ 2 * m (a + 2)
    + 256 ^ 3 * m (a + 3)
    + 256 ^ 4 * m (a + 4)
    + 256 ^ 5 * m (a + 5)
    + 256 ^ 6 * m (a + 6)
    + 256 ^ 7 * m (a + 7)

-- `*(size_t*)a = v`
unfoldable pub write64 : Memory → ℕ → ℕ → Memory
unfolding byte_of
write64 m a v x = if leb a x && ltb x (a + 8) then byte_of v (x - a) else m x

pub write64_outside : (m : Memory) (a v x : ℕ) → (x < a) ⊎ (a + 8 ≤ x) → write64 m a v x ≡ m x
unfolding write64
write64_outside m a v x (inl h) = ground arith
write64_outside m a v x (inr h) = ground arith

write64_inside : (m : Memory) (a v i x : ℕ) → i < 8 → x ≡ a + i → write64 m a v x ≡ byte_of v i
unfolding write64
write64_inside m a v i x h e =
    let at : x - a ≡ i = omega arith in
    let f : byte_of v (x - a) ≡ byte_of v i = ap (byte_of v) at in ground arith

bytes_sum :
    (v : ℕ)
    → v < size_mod
    → byte_of v 0
        + 256 * byte_of v 1
        + 256 ^ 2 * byte_of v 2
        + 256 ^ 3 * byte_of v 3
        + 256 ^ 4 * byte_of v 4
        + 256 ^ 5 * byte_of v 5
        + 256 ^ 6 * byte_of v 6
        + 256 ^ 7 * byte_of v 7
      ≡ v
unfolding byte_of
bytes_sum v h = omega arith

pub read64-write64_self : (m : Memory) (a v : ℕ) → v < size_mod → read64 (write64 m a v) a ≡ v
unfolding read64
read64-write64_self m a v h = omega (
  arith,
  write64_inside m a v 0 a (omega arith) (omega arith),
  write64_inside m a v 1 (a + 1) (omega arith) refl,
  write64_inside m a v 2 (a + 2) (omega arith) refl,
  write64_inside m a v 3 (a + 3) (omega arith) refl,
  write64_inside m a v 4 (a + 4) (omega arith) refl,
  write64_inside m a v 5 (a + 5) (omega arith) refl,
  write64_inside m a v 6 (a + 6) (omega arith) refl,
  write64_inside m a v 7 (a + 7) (omega arith) refl,
  bytes_sum v h,
)

-- A word keeps its value if its eight bytes do.
pub read64_same :
    (m n : Memory) (a : ℕ) → ((x : ℕ) → a ≤ x → x < a + 8 → m x ≡ n x) → read64 m a ≡ read64 n a
unfolding read64
read64_same m n a h = omega (
  arith,
  h a (omega arith) (omega arith),
  h (a + 1) (omega arith) (omega arith),
  h (a + 2) (omega arith) (omega arith),
  h (a + 3) (omega arith) (omega arith),
  h (a + 4) (omega arith) (omega arith),
  h (a + 5) (omega arith) (omega arith),
  h (a + 6) (omega arith) (omega arith),
  h (a + 7) (omega arith) (omega arith),
)

pub read64-write64_apart :
    (m : Memory) (a b v : ℕ) → (b + 8 ≤ a) ⊎ (a + 8 ≤ b) → read64 (write64 m a v) b ≡ read64 m b
read64-write64_apart m a b v h =
    read64_same (write64 m a v) m b (λ x p q. write64_outside m a v x (side h x p q))
  where
    side : (b + 8 ≤ a) ⊎ (a + 8 ≤ b) → (x : ℕ) → b ≤ x → x < b + 8 → (x < a) ⊎ (a + 8 ≤ x)
    side (inl k) x p q = inl (omega arith)
    side (inr k) x p q = inr (omega arith)

-- A word is 0 exactly when its eight bytes are.
pub read64_zero : (m : Memory) (a : ℕ) → read64 m a ≡ 0 → (i : ℕ) → i < 8 → m (a + i) ≡ 0
unfolding read64
read64_zero m a h zero p = let e : a + 0 ≡ a = omega arith in rw e (omega arith)
read64_zero m a h (suc zero) p = omega arith
read64_zero m a h (suc (suc zero)) p = omega arith
read64_zero m a h (suc (suc (suc zero))) p = omega arith
read64_zero m a h (suc (suc (suc (suc zero)))) p = omega arith
read64_zero m a h (suc (suc (suc (suc (suc zero))))) p = omega arith
read64_zero m a h (suc (suc (suc (suc (suc (suc zero)))))) p = omega arith
read64_zero m a h (suc (suc (suc (suc (suc (suc (suc zero))))))) p = omega arith
read64_zero m a h (suc (suc (suc (suc (suc (suc (suc (suc i)))))))) p = absurd (omega arith)
