-- ===== src/Object/Interior.antt =====
-- `get_object` of allocator/object.c at interior addresses.
use mathlib.Core.Option.{Option, none, some}
use native.Mathlib.Nat.{div-add-mod, mod-lt, le-div_iff_mul-le}
use garbage_collector.Prelude.{
  ℕ, suc, ◌+◌, ◌-◌, ◌*◌, ◌/◌, ◌%◌, ◌≤◌, ◌<◌, ◌≡◌, ◌∙◌, ap, refl, true, arith, size_mod,
}
use garbage_collector.Memory.Words.{read64}
use garbage_collector.Large.Tree.{Header, TreeNode, null, node, blocks}
use garbage_collector.Large.Bst.{ext_search_bst}
use garbage_collector.Large.Layout.{Laid}
use garbage_collector.Large.Search.{root_block, find?, around, ext_search_bst-find?}
use garbage_collector.Small.Header.{size_with_alignment}
use garbage_collector.Small.Slot.{IsBlock, get_block_addr-eq}
use garbage_collector.Object.Heaps.{Heaps, in_large, addr_at, get_small_object, get_object}

abbrev pub addr_of : Option Header → Option ℕ
addr_of none = none
addr_of (some b) = some b.addr

addr_at-root_block : (t : TreeNode) → addr_at t ≡ addr_of (root_block t)
addr_at-root_block null = refl
addr_at-root_block (node b l r) = refl

-- For an address of the large heap, whose end is below 2^64 and whose occupied tree is laid out in
-- it, the object is the start of the occupied block that a scan of all blocks finds around the
-- address, and there is none if the scan finds none.
pub get_object-large :
    (h : Heaps) (addr gap : ℕ)
    → in_large h addr ≡ true
    → h.large_end < size_mod
    → Laid gap h.large_start h.large_end h.large.occupied
    → get_object h addr ≡ addr_of (find? (around addr) (blocks h.large.occupied))
unfolding get_object
get_object-large h addr gap inside fits laid = rw inside (
    addr_at-root_block (ext_search_bst h.large.occupied addr)
    ∙ ap addr_of
        (ext_search_bst-find? gap addr h.large_start h.large_end h.large.occupied laid fits))

-- A block of the small heap with objects of `size` bytes.
pub record IsObjectBlock (h : Heaps) (base size : ℕ) : Type 0 where
  pub block : IsBlock h.small.start base
  pub sized : size_with_alignment (read64 h.small.mem (base + 8)) ≡ size
  pub positive : 0 < size
  pub most : size ≤ 2008
  pub exact : size_with_alignment size ≡ size

-- For an address behind the header of a block with objects of `size` bytes, a multiple of 8 from 1
-- to 2008, the object found starts a whole number of sizes behind the header, at or before the
-- address, and ends behind the address.
pub get_small_object-interior :
    (h : Heaps) (base size off : ℕ)
    → IsObjectBlock h base size
    → 80 ≤ off
    → off < 4096
    → let index = (off - 80) / size in
      (get_small_object h (base + off) ≡ some (base + 80 + index * size))
      × (base + 80 + index * size ≤ base + off)
      × (base + off < base + 80 + suc index * size)
unfolding get_small_object
get_small_object-interior h base size off b p q =
    let at = get_block_addr-eq h.small.start base off b.block q in
    let split : size * ((off - 80) / size) + (off - 80) % size ≡ off - 80 =
      div-add-mod (off - 80) size in
    let small : (off - 80) % size < size = omega (arith, b.positive) in
    let e : base + off - base ≡ off = omega arith in
    let start : base + off - (off - 80) % size ≡ base + 80 + (off - 80) / size * size =
      omega (arith, split) in
    (
      rw (at, b.sized, e, b.exact) (ground (arith, start, b.positive, b.most)),
      omega (arith, split),
      omega (arith, split, small),
    )

tail_index :
    (off size : ℕ)
    → 0 < size
    → 80 ≤ off
    → 4016 / size * size ≤ off - 80
    → 4016 / size ≤ (off - 80) / size
tail_index off size z p q = (le-div_iff_mul-le {k = size} {x = 4016 / size} {y = off - 80} z).1 q

-- For an address of such a block behind the last object that fits in it, an object is found too,
-- and it ends behind the block.
pub get_small_object-tail :
    (h : Heaps) (base size off : ℕ)
    → IsObjectBlock h base size
    → 80 + 4016 / size * size ≤ off
    → off < 4096
    → (object : ℕ) × (get_small_object h (base + off) ≡ some object) × (base + 4096 < object + size)
get_small_object-tail h base size off b p q =
    let index = (off - 80) / size in
    let found = get_small_object-interior h base size off b (omega arith) q in
    let late = tail_index off size b.positive (omega arith) (omega arith) in
    (base + 80 + index * size, found.0, past index size b.positive late)
  where
    past : (i n : ℕ) → 0 < n → 4016 / n ≤ i → base + 4096 < base + 80 + i * n + n
    past i n z k = grind (arith, div-add-mod 4016 n, mod-lt 4016 z)
