-- ===== src/Large/Layout.antt =====
-- The layout invariant of the trees of allocator/large-allocator.c: nonempty blocks at increasing
-- addresses inside a window.
use garbage_collector.Prelude.{ℕ, ◌+◌, ◌≤◌, ◌<◌, ◌≡◌, refl, false, arith}
use garbage_collector.Large.Tree.{TreeNode, null, node, in_block, covers}

-- Nonempty blocks from left to right in the window from `lo` to `hi`, with at least `gap` bytes
-- between neighbours and at the ends. A gap of 1 says that no two blocks touch.
abbrev pub Laid : ℕ → ℕ → ℕ → TreeNode → Type 0
Laid gap lo hi null = lo + gap ≤ hi
Laid gap lo hi (node b l r) = Laid gap lo b.addr l × (0 < b.size) × Laid gap (b.addr + b.size) hi r

pub Laid-le : (gap lo hi : ℕ) (t : TreeNode) → Laid gap lo hi t → lo + gap ≤ hi
Laid-le gap lo hi null h = h
Laid-le gap lo hi (node b l r) h =
    omega (arith, Laid-le gap lo b.addr l h.0, Laid-le gap (b.addr + b.size) hi r h.2)

pub Laid-widen :
    (gap lo hi lo' hi' : ℕ) (t : TreeNode)
    → lo' ≤ lo
    → hi ≤ hi'
    → Laid gap lo hi t
    → Laid gap lo' hi' t
Laid-widen gap lo hi lo' hi' null p q h = omega arith
Laid-widen gap lo hi lo' hi' (node b l r) p q h = (
  Laid-widen gap lo b.addr lo' b.addr l p (omega arith) h.0,
  h.1,
  Laid-widen gap (b.addr + b.size) hi (b.addr + b.size) hi' r (omega arith) q h.2,
)

-- Outside the window nothing is covered.
pub covers_below : (gap lo hi x : ℕ) (t : TreeNode) → Laid gap lo hi t → x < lo → covers t x ≡ false
unfolding in_block
covers_below gap lo hi x null h p = refl
covers_below gap lo hi x (node b l r) h p = ground (
  arith,
  Laid-le gap lo b.addr l h.0,
  covers_below gap lo b.addr x l h.0 p,
  covers_below gap (b.addr + b.size) hi x r h.2,
)

pub covers_above : (gap lo hi x : ℕ) (t : TreeNode) → Laid gap lo hi t → hi ≤ x → covers t x ≡ false
unfolding in_block
covers_above gap lo hi x null h p = refl
covers_above gap lo hi x (node b l r) h p = ground (
  arith,
  Laid-le gap (b.addr + b.size) hi r h.2,
  covers_above gap lo b.addr x l h.0,
  covers_above gap (b.addr + b.size) hi x r h.2 p,
)
