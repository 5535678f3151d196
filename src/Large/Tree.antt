-- ===== src/Large/Tree.antt =====
-- The node type of allocator/large-allocator.h, and what is read off a tree.
use garbage_collector.Prelude.{ℕ, suc, ◌+◌, Bool, false, ◌&&◌, ◌||◌, List, [], ◌∷◌, ◌++◌, leb, ltb}

pub record Header : Type 0 where
  pub addr : ℕ
  pub size : ℕ
  pub is_marked : Bool

-- A pointer to a node with everything below it; no node is reached by two paths.
pub data TreeNode : Type 0 where
  null : TreeNode
  node : Header → TreeNode → TreeNode → TreeNode

-- The blocks from left to right.
abbrev pub blocks : TreeNode → List Header
blocks null = []
blocks (node b l r) = blocks l ++ b ∷ blocks r

abbrev pub count : TreeNode → ℕ
count null = 0
count (node b l r) = suc (count l + count r)

-- The address x lies in the block.
unfoldable pub in_block : Header → ℕ → Bool
in_block b x = leb b.addr x && ltb x (b.addr + b.size)

-- Some block of the tree contains the address x.
abbrev pub covers : TreeNode → ℕ → Bool
covers null x = false
covers (node b l r) x = in_block b x || (covers l x || covers r x)
