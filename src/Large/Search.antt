-- ===== src/Large/Search.antt =====
-- The searches of allocator/binary-search-tree.c against a scan of all blocks.
use garbage_collector.Prelude.{
  ℕ, ◌+◌, ◌≤◌, ◌<◌, ◌≡◌, refl, Bool, List, [], ◌∷◌, ◌++◌, Option, none, some, ◌==◌, if◌then◌else◌,
  arith, add64-eq, size_mod,
}
use garbage_collector.Large.Tree.{Header, TreeNode, null, node, blocks, in_block}
use garbage_collector.Large.Bst.{search_bst, ext_search_bst}
use garbage_collector.Large.Layout.{Laid, Laid-le}

abbrev pub root_block : TreeNode → Option Header
root_block null = none
root_block (node b l r) = some b

-- The first block of a list that a test accepts.
abbrev pub find? : (Header → Bool) → List Header → Option Header
find? p [] = none
find? p (b ∷ bs) = if p b then some b else find? p bs

abbrev pub or_else : Option Header → Option Header → Option Header
or_else none o = o
or_else (some b) o = some b

pub find?-append :
    (p : Header → Bool) (xs ys : List Header)
    → find? p (xs ++ ys) ≡ or_else (find? p xs) (find? p ys)
find?-append p [] ys = refl
find?-append p (b ∷ xs) ys = ground (arith, find?-append p xs ys)

abbrev pub at_addr : ℕ → Header → Bool
at_addr x b = x == b.addr

abbrev pub around : ℕ → Header → Bool
around x b = in_block b x

-- Both tests accept only a block with the address inside.
module _ (gap x : ℕ) where
  around_below :
      (lo hi : ℕ) (t : TreeNode) → Laid gap lo hi t → x < lo → find? (around x) (blocks t) ≡ none
  unfolding in_block
  around_below lo hi null h p = refl
  around_below lo hi (node b l r) h p = ground (
    arith,
    find?-append (around x) (blocks l) (b ∷ blocks r),
    Laid-le gap lo b.addr l h.0,
    around_below lo b.addr l h.0 p,
    around_below (b.addr + b.size) hi r h.2,
  )

  around_above :
      (lo hi : ℕ) (t : TreeNode) → Laid gap lo hi t → hi ≤ x → find? (around x) (blocks t) ≡ none
  unfolding in_block
  around_above lo hi null h p = refl
  around_above lo hi (node b l r) h p = ground (
    arith,
    find?-append (around x) (blocks l) (b ∷ blocks r),
    Laid-le gap (b.addr + b.size) hi r h.2,
    around_above lo b.addr l h.0,
    around_above (b.addr + b.size) hi r h.2 p,
  )

  at_below :
      (lo hi : ℕ) (t : TreeNode) → Laid gap lo hi t → x < lo → find? (at_addr x) (blocks t) ≡ none
  at_below lo hi null h p = refl
  at_below lo hi (node b l r) h p = ground (
    arith,
    find?-append (at_addr x) (blocks l) (b ∷ blocks r),
    Laid-le gap lo b.addr l h.0,
    at_below lo b.addr l h.0 p,
    at_below (b.addr + b.size) hi r h.2,
  )

  at_above :
      (lo hi : ℕ) (t : TreeNode) → Laid gap lo hi t → hi ≤ x → find? (at_addr x) (blocks t) ≡ none
  at_above lo hi null h p = refl
  at_above lo hi (node b l r) h p = ground (
    arith,
    find?-append (at_addr x) (blocks l) (b ∷ blocks r),
    Laid-le gap (b.addr + b.size) hi r h.2,
    at_above lo b.addr l h.0,
    at_above (b.addr + b.size) hi r h.2 p,
  )

  -- In a tree laid out in a window below 2^64 the search for an address finds the block that a
  -- scan of all blocks finds around the address, and none if the scan finds none.
  pub ext_search_bst-find? :
      (lo hi : ℕ) (t : TreeNode)
      → Laid gap lo hi t
      → hi < size_mod
      → root_block (ext_search_bst t x) ≡ find? (around x) (blocks t)
  unfolding ext_search_bst in_block
  ext_search_bst-find? lo hi null h fits = refl
  ext_search_bst-find? lo hi (node b l r) h fits = ground (
    arith,
    find?-append (around x) (blocks l) (b ∷ blocks r),
    add64-eq b.addr b.size,
    Laid-le gap lo b.addr l h.0,
    Laid-le gap (b.addr + b.size) hi r h.2,
    around_above lo b.addr l h.0,
    around_below (b.addr + b.size) hi r h.2,
    ext_search_bst-find? lo b.addr l h.0,
    ext_search_bst-find? (b.addr + b.size) hi r h.2,
  )

  -- In a laid out tree the search for a start address finds the block that a scan of all blocks
  -- finds to start there, and none if the scan finds none.
  pub search_bst-find? :
      (lo hi : ℕ) (t : TreeNode)
      → Laid gap lo hi t
      → root_block (search_bst t x) ≡ find? (at_addr x) (blocks t)
  unfolding search_bst
  search_bst-find? lo hi null h = refl
  search_bst-find? lo hi (node b l r) h = ground (
    arith,
    find?-append (at_addr x) (blocks l) (b ∷ blocks r),
    Laid-le gap lo b.addr l h.0,
    Laid-le gap (b.addr + b.size) hi r h.2,
    at_above lo b.addr l h.0,
    at_below (b.addr + b.size) hi r h.2,
    search_bst-find? lo b.addr l h.0,
    search_bst-find? (b.addr + b.size) hi r h.2,
  )
