-- ===== src/Memory/Blocks.antt =====
-- memops/gc_mem.c: `gc_memset` and `gc_memcpy`, sixteen bytes at a time and then byte by byte.
use garbage_collector.Prelude.{
  ℕ, zero, suc, ◌+◌, ◌-◌, ◌%◌, ◌≤◌, ◌<◌, ◌≡◌, ◌⊎◌, ap, Bool, true, false, ◌&&◌, leb, ltb,
  if◌then◌else◌, arith, inl, inr, Bool-cases,
}
use garbage_collector.Memory.Words.{Memory, write8}

-- `_mm_storeu_si128` of a vector whose byte number k is `v k`.
unfoldable pub store16 : Memory → ℕ → (ℕ → ℕ) → Memory
store16 m a v x = if leb a x && ltb x (a + 16) then v (x - a) else m x

-- The vector loop of `gc_memset`: the memory and `i` when its test fails. The fuel bounds the
-- rounds.
unfoldable pub memset_chunks : ℕ → ℕ → ℕ → ℕ → ℕ → Memory → Memory × ℕ
unfolding store16
memset_chunks zero dest value count i m = (m, i)
memset_chunks (suc fuel) dest value count i m = elim (leb (i + 16) count) [
  | true ↦ memset_chunks fuel dest value count (i + 16) (store16 m (dest + i) (λ _. value % 256))
  | false ↦ (m, i)
]

-- The byte loop of `gc_memset`.
unfoldable pub memset_bytes : ℕ → ℕ → ℕ → ℕ → ℕ → Memory → Memory
unfolding write8
memset_bytes zero dest value count i m = m
memset_bytes (suc fuel) dest value count i m = elim (ltb i count) [
  | true ↦ memset_bytes fuel dest value count (i + 1) (write8 m (dest + i) (value % 256))
  | false ↦ m
]

unfoldable pub gc_memset : ℕ → ℕ → ℕ → Memory → Memory
unfolding memset_chunks memset_bytes
gc_memset dest value count m =
    let (m', i) = memset_chunks (count + 1) dest value count 0 m in
    memset_bytes (count + 1) dest value count i m'

unfoldable pub memcpy_chunks : ℕ → ℕ → ℕ → ℕ → ℕ → Memory → Memory × ℕ
unfolding store16
memcpy_chunks zero dest src count i m = (m, i)
memcpy_chunks (suc fuel) dest src count i m = elim (leb (i + 16) count) [
  | true ↦ memcpy_chunks fuel dest src count (i + 16) (store16 m (dest + i) (λ k. m (src + i + k)))
  | false ↦ (m, i)
]

unfoldable pub memcpy_bytes : ℕ → ℕ → ℕ → ℕ → ℕ → Memory → Memory
unfolding write8
memcpy_bytes zero dest src count i m = m
memcpy_bytes (suc fuel) dest src count i m = elim (ltb i count) [
  | true ↦ memcpy_bytes fuel dest src count (i + 1) (write8 m (dest + i) (m (src + i)))
  | false ↦ m
]

unfoldable pub gc_memcpy : ℕ → ℕ → ℕ → Memory → Memory
unfolding memcpy_chunks memcpy_bytes
gc_memcpy dest src count m =
    let (m', i) = memcpy_chunks (count + 1) dest src count 0 m in
    memcpy_bytes (count + 1) dest src count i m'

-- The address x lies in the `count` bytes from `dest`.
abbrev pub within : ℕ → ℕ → ℕ → Bool
within dest count x = leb dest x && ltb x (dest + count)

module _ (dest value count : ℕ) where
  -- The first `i` bytes are set, and nothing else differs from `m`.
  abbrev IsSetTo : Memory → ℕ → Memory → Type 0
  IsSetTo m i out = (x : ℕ) → out x ≡ (if within dest i x then value % 256 else m x)

  chunk-set :
      (m n : Memory) (i : ℕ)
      → IsSetTo m i n
      → IsSetTo m (i + 16) (store16 n (dest + i) (λ _. value % 256))
  unfolding store16
  chunk-set m n i h x = ground (arith, h x)

  byte-set :
      (m n : Memory) (i : ℕ) → IsSetTo m i n → IsSetTo m (i + 1) (write8 n (dest + i) (value % 256))
  unfolding write8
  byte-set m n i h x = ground (arith, h x)

  chunks-set :
      (m : Memory) (fuel i : ℕ) (n : Memory)
      → count < i + fuel
      → i ≤ count
      → IsSetTo m i n
      → let out = memset_chunks fuel dest value count i n in IsSetTo m out.1 out.0 × (out.1 ≤ count)
  unfolding memset_chunks
  chunks-set m zero i n p q h = absurd (omega arith)
  chunks-set m (suc fuel) i n p q h = elim (Bool-cases (leb (i + 16) count)) [
    | inl more ↦
        rw (more, memset_chunks)
          (chunks-set m fuel (i + 16) (store16 n (dest + i) (λ _. value % 256)) (omega arith)
            (ground arith) (chunk-set m n i h))
    | inr done ↦ rw (done, memset_chunks) (h, q)
  ]

  bytes-set :
      (m : Memory) (fuel i : ℕ) (n : Memory)
      → count < i + fuel
      → i ≤ count
      → IsSetTo m i n
      → IsSetTo m count (memset_bytes fuel dest value count i n)
  unfolding memset_bytes
  bytes-set m zero i n p q h = absurd (omega arith)
  bytes-set m (suc fuel) i n p q h = elim (Bool-cases (ltb i count)) [
    | inl more ↦
        rw (more, memset_bytes)
          (bytes-set m fuel (i + 1) (write8 n (dest + i) (value % 256)) (omega arith) (ground arith)
            (byte-set m n i h))
    | inr done ↦ rw (done, memset_bytes) (let e : i ≡ count = ground arith in rw (← e) h)
  ]

  start-set : (m : Memory) → IsSetTo m 0 m
  start-set m x = ground arith

  -- Exactly the `count` bytes from the destination change, and each holds the low byte of the
  -- value.
  pub gc_memset_lem :
      (m : Memory) (x : ℕ)
      → gc_memset dest value count m x ≡ (if within dest count x then value % 256 else m x)
  unfolding gc_memset
  gc_memset_lem m x =
      let (set, le) = chunks-set m (count + 1) 0 m (omega arith) (omega arith) (start-set m) in
      let (m', i) = memset_chunks (count + 1) dest value count 0 m in
      bytes-set m (count + 1) i m' (omega arith) le set x

-- The bytes may overlap if the copy goes down.
module _ (dest src count : ℕ) (m : Memory) (apart : (dest ≤ src) ⊎ (src + count ≤ dest)) where
  -- The first `i` bytes are copied from `m`, and nothing else differs from it.
  abbrev IsCopiedTo : ℕ → Memory → Type 0
  IsCopiedTo i out = (x : ℕ) → out x ≡ (if within dest i x then m (src + (x - dest)) else m x)

  -- A byte that is read later than `i` still holds what it held.
  source-kept :
      (n : Memory) (i y : ℕ)
      → i ≤ count
      → IsCopiedTo i n
      → src + i ≤ y
      → y < src + count
      → n y ≡ m y
  source-kept n i y p h low high = kept apart
    where
      kept : (dest ≤ src) ⊎ (src + count ≤ dest) → n y ≡ m y
      kept (inl down) = ground (arith, h y)
      kept (inr below) = ground (arith, h y)

  shifted : (i x : ℕ) → dest + i ≤ x → m (src + i + (x - (dest + i))) ≡ m (src + (x - dest))
  shifted i x h = ap m (omega arith)

  chunk-copied :
      (n : Memory) (i : ℕ)
      → i + 16 ≤ count
      → IsCopiedTo i n
      → IsCopiedTo (i + 16) (store16 n (dest + i) (λ k. n (src + i + k)))
  unfolding store16
  chunk-copied n i p h x =
      ground (arith, h x, shifted i x, source-kept n i (src + i + (x - (dest + i))) (omega arith) h)

  byte-copied :
      (n : Memory) (i : ℕ)
      → i < count
      → IsCopiedTo i n
      → IsCopiedTo (i + 1) (write8 n (dest + i) (n (src + i)))
  unfolding write8
  byte-copied n i p h x = ground (arith, h x, at_end x, source-kept n i (src + i) (omega arith) h)
    where
      at_end : (y : ℕ) → y ≡ dest + i → m (src + i) ≡ m (src + (y - dest))
      at_end y e = ap m (omega arith)

  chunks-copied :
      (fuel i : ℕ) (n : Memory)
      → count < i + fuel
      → i ≤ count
      → IsCopiedTo i n
      → let out = memcpy_chunks fuel dest src count i n in IsCopiedTo out.1 out.0 × (out.1 ≤ count)
  unfolding memcpy_chunks
  chunks-copied zero i n p q h = absurd (omega arith)
  chunks-copied (suc fuel) i n p q h = elim (Bool-cases (leb (i + 16) count)) [
    | inl more ↦
        rw (more, memcpy_chunks)
          (chunks-copied fuel (i + 16) (store16 n (dest + i) (λ k. n (src + i + k))) (omega arith)
            (ground arith) (chunk-copied n i (ground arith) h))
    | inr done ↦ rw (done, memcpy_chunks) (h, q)
  ]

  bytes-copied :
      (fuel i : ℕ) (n : Memory)
      → count < i + fuel
      → i ≤ count
      → IsCopiedTo i n
      → IsCopiedTo count (memcpy_bytes fuel dest src count i n)
  unfolding memcpy_bytes
  bytes-copied zero i n p q h = absurd (omega arith)
  bytes-copied (suc fuel) i n p q h = elim (Bool-cases (ltb i count)) [
    | inl more ↦
        rw (more, memcpy_bytes)
          (bytes-copied fuel (i + 1) (write8 n (dest + i) (n (src + i))) (omega arith)
            (ground arith) (byte-copied n i (ground arith) h))
    | inr done ↦ rw (done, memcpy_bytes) (let e : i ≡ count = ground arith in rw (← e) h)
  ]

  start-copied : IsCopiedTo 0 m
  start-copied x = ground arith

  -- If the destination starts at or before the source, or behind its end, then exactly the `count`
  -- bytes from the destination change, and they hold what the bytes from the source held.
  pub gc_memcpy_lem :
      (x : ℕ)
      → gc_memcpy dest src count m x ≡ (if within dest count x then m (src + (x - dest)) else m x)
  unfolding gc_memcpy
  gc_memcpy_lem x =
      let (copied, le) = chunks-copied (count + 1) 0 m (omega arith) (omega arith) start-copied in
      let (n, i) = memcpy_chunks (count + 1) dest src count 0 m in
      bytes-copied (count + 1) i n (omega arith) le copied x
