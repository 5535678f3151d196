-- ===== src/Large/Bst.antt =====
-- allocator/binary-search-tree.c, less `cleanup_bst`.
use garbage_collector.Prelude.{ℕ, true, false, ltb, leb, ◌==◌, ◌&&◌, add64}
use garbage_collector.Large.Tree.{Header, TreeNode, null, node}

-- The inserted node is given by its fields, whatever its child pointers are.
unfoldable pub insert_bst : TreeNode → Header → TreeNode → TreeNode → TreeNode
insert_bst null n nl nr = node n nl nr
insert_bst (node b l r) n nl nr = elim (ltb n.addr b.addr) [
  | true ↦ node b (insert_bst l n nl nr) r
  | false ↦ node b l (insert_bst r n nl nr)
]

unfoldable pub search_bst : TreeNode → ℕ → TreeNode
search_bst null addr = null
search_bst (node b l r) addr = elim (addr == b.addr) [
  | true ↦ node b l r
  | false ↦ elim (ltb addr b.addr) [ true ↦ search_bst l addr | false ↦ search_bst r addr ]
]

unfoldable pub ext_search_bst : TreeNode → ℕ → TreeNode
ext_search_bst null addr = null
ext_search_bst (node b l r) addr = elim (leb b.addr addr && ltb addr (add64 b.addr b.size)) [
  | true ↦ node b l r
  | false ↦ elim (ltb addr b.addr) [ true ↦ ext_search_bst l addr | false ↦ ext_search_bst r addr ]
]

-- The walk to the least node of a subtree: its block, and the subtree with that node replaced by
-- its right child, which is what the call of `remove_bst` at a node with no left child returns.
unfoldable pub take_min : Header → TreeNode → TreeNode → Header × TreeNode
take_min b null r = (b, r)
take_min b (node lb ll lr) r = let (least, rest) = take_min lb ll lr in (least, node b rest r)

-- The branch of `remove_bst` where the address is found: the new subtree, and the node that is
-- handed out. With two children that is the node of the least block on the right, which holds
-- the block that was copied into the root.
unfoldable pub remove_root : Header → TreeNode → TreeNode → TreeNode × TreeNode
unfolding take_min
remove_root b null r = (r, node b null null)
remove_root b (node lb ll lr) null = (node lb ll lr, node b null null)
remove_root b (node lb ll lr) (node rb rl rr) =
    let (least, rest) = take_min rb rl rr in (node least (node lb ll lr) rest, node least null null)

unfoldable pub remove_bst : TreeNode → ℕ → TreeNode × TreeNode
unfolding remove_root
remove_bst null addr = (null, null)
remove_bst (node b l r) addr = elim (ltb addr b.addr) [
  | true ↦ let (l', removed) = remove_bst l addr in (node b l' r, removed)
  | false ↦ elim (ltb b.addr addr) [
    | true ↦ let (r', removed) = remove_bst r addr in (node b l r', removed)
    | false ↦ remove_root b l r
  ]
]
