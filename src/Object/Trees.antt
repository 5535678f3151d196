-- ===== src/Object/Trees.antt =====
-- The occupied tree under `get_object`, `mark_object` and `is_marked` of allocator/object.c.
use mathlib.Core.Option.{some}
use garbage_collector.Prelude.{ℕ, ◌+◌, ◌≤◌, ◌<◌, ◌≡◌, Bool, arith, size_mod, add64-eq, refl}
use garbage_collector.Large.Tree.{TreeNode, null, node}
use garbage_collector.Large.Bst.{search_bst, ext_search_bst}
use garbage_collector.Large.Layout.{Laid, Laid-le}
use garbage_collector.Object.Heaps.{size_at, addr_at, mark_at, mark_bst}

module _ (x o : ℕ) where
  -- The block found around an address lies in the window of the tree.
  pub found_window :
      (lo hi : ℕ) (t : TreeNode)
      → Laid 0 lo hi t
      → addr_at (ext_search_bst t x) ≡ some o
      → (lo ≤ o) × (o < hi)
  unfolding ext_search_bst
  found_window lo hi null h e = ground arith
  found_window lo hi (node b l r) h e = ground (
    arith,
    Laid-le 0 lo b.addr l h.0,
    Laid-le 0 (b.addr + b.size) hi r h.2,
    found_window lo b.addr l h.0,
    found_window (b.addr + b.size) hi r h.2,
  )

  -- A search for its start finds the same node,
  pub search_bst-ext_search_bst :
      (lo hi : ℕ) (t : TreeNode)
      → Laid 0 lo hi t
      → addr_at (ext_search_bst t x) ≡ some o
      → search_bst t o ≡ ext_search_bst t x
  unfolding ext_search_bst search_bst
  search_bst-ext_search_bst lo hi null h e = refl
  search_bst-ext_search_bst lo hi (node b l r) h e = ground (
    arith,
    found_window lo b.addr l h.0,
    found_window (b.addr + b.size) hi r h.2,
    search_bst-ext_search_bst lo b.addr l h.0,
    search_bst-ext_search_bst (b.addr + b.size) hi r h.2,
  )

  -- and so does a search around its start.
  pub ext_search_bst-again :
      (lo hi : ℕ) (t : TreeNode)
      → Laid 0 lo hi t
      → hi < size_mod
      → addr_at (ext_search_bst t x) ≡ some o
      → addr_at (ext_search_bst t o) ≡ some o
  unfolding ext_search_bst
  ext_search_bst-again lo hi null h fits e = ground arith
  ext_search_bst-again lo hi (node b l r) h fits e = ground (
    arith,
    Laid-le 0 lo b.addr l h.0,
    Laid-le 0 (b.addr + b.size) hi r h.2,
    add64-eq b.addr b.size,
    found_window lo b.addr l h.0,
    found_window (b.addr + b.size) hi r h.2,
    ext_search_bst-again lo b.addr l h.0,
    ext_search_bst-again (b.addr + b.size) hi r h.2,
  )

-- A node has a mark and a size.
pub node_fields :
    (t : TreeNode) (o : ℕ)
    → addr_at t ≡ some o
    → ((b : Bool) × (mark_at t ≡ some b)) × ((n : ℕ) × (size_at t ≡ some n))
node_fields null o e = ground arith
node_fields (node b l r) o e = ((b.is_marked, refl), (b.size, refl))

-- A mark changes neither the layout nor what a search finds, but for the mark.
pub Laid-mark_bst : (lo hi a : ℕ) (t : TreeNode) → Laid 0 lo hi t → Laid 0 lo hi (mark_bst t a)
unfolding mark_bst
Laid-mark_bst lo hi a null h = h
Laid-mark_bst lo hi a (node b l r) h =
    ground (arith, Laid-mark_bst lo b.addr a l h.0, Laid-mark_bst (b.addr + b.size) hi a r h.2)

pub addr_at-mark_bst :
    (t : TreeNode) (a x : ℕ)
    → addr_at (ext_search_bst (mark_bst t a) x) ≡ addr_at (ext_search_bst t x)
unfolding ext_search_bst mark_bst
addr_at-mark_bst null a x = refl
addr_at-mark_bst (node b l r) a x = ground (arith, addr_at-mark_bst l a x, addr_at-mark_bst r a x)

pub size_at-mark_bst :
    (t : TreeNode) (a x : ℕ) → size_at (search_bst (mark_bst t a) x) ≡ size_at (search_bst t x)
unfolding search_bst mark_bst
size_at-mark_bst null a x = refl
size_at-mark_bst (node b l r) a x = ground (arith, size_at-mark_bst l a x, size_at-mark_bst r a x)
