-- ===== src/Large/Treap.antt =====
-- allocator/treap.c, with the list of spare nodes of allocator/large-allocator.c as its length,
-- and `cleanup_bst` of allocator/binary-search-tree.c, which calls `insert_treap`.
use garbage_collector.Prelude.{ℕ, zero, suc, true, false, ltb, leb, ◌==◌, add64, if◌then◌else◌}
use garbage_collector.Large.Tree.{Header, TreeNode, null, node}
use garbage_collector.Large.Bst.{remove_bst}

-- `free_tree_node` zeroes the node and puts it on the list.
unfoldable pub free_tree_node : TreeNode → ℕ → ℕ
free_tree_node null spare = spare
free_tree_node (node b l r) spare = suc spare

-- Every node of the list was zeroed when it was put there.
unfoldable pub get_new_tree_node : ℕ → TreeNode × ℕ
get_new_tree_node zero = (null, zero)
get_new_tree_node (suc spare) =
    (node (record { addr = 0; size = 0; is_marked = false }) null null, spare)

unfoldable pub first_fit_search : TreeNode → ℕ → TreeNode
first_fit_search null size = null
first_fit_search (node b l r) size = if leb size b.size then node b l r else null

unfoldable pub split_treap : TreeNode → ℕ → TreeNode × TreeNode
split_treap null addr = (null, null)
split_treap (node b l r) addr = elim (ltb addr b.addr) [
  | true ↦ let (low, high) = split_treap l addr in (low, node b high r)
  | false ↦ let (low, high) = split_treap r addr in (node b l low, high)
]

unfoldable pub merge_treap : TreeNode → TreeNode → TreeNode
merge_treap null r = r
merge_treap (node lb ll lr) null = node lb ll lr
merge_treap (node lb ll lr) (node rb rl rr) = elim (ltb rb.size lb.size) [
  | true ↦ node lb ll (merge_treap lr (node rb rl rr))
  | false ↦ node rb (merge_treap (node lb ll lr) rl) rr
]

unfoldable pub find_rightmost : TreeNode → TreeNode
find_rightmost null = null
find_rightmost (node b l null) = node b l null
find_rightmost (node b l (node rb rl rr)) = find_rightmost (node rb rl rr)

unfoldable pub find_leftmost : TreeNode → TreeNode
find_leftmost null = null
find_leftmost (node b null r) = node b null r
find_leftmost (node b (node lb ll lr) r) = find_leftmost (node lb ll lr)

-- The state of `insert_treap` across its two tests: the tree on one side, the block of the new
-- node and the number of spare nodes.
pub record Joined : Type 0 where
  pub side : TreeNode
  pub block : Header
  pub spare : ℕ

-- The first test of `insert_treap`, at the node that `find_rightmost` returned.
unfoldable pub join_left : TreeNode → TreeNode → Header → ℕ → Joined
unfolding remove_bst free_tree_node
join_left null l new spare = record { side = l; block = new; spare = spare }
join_left (node n nl nr) l new spare =
    if add64 n.addr n.size == new.addr
    then (let (l', removed) = remove_bst l n.addr in
        record {
          side = l';
          block = record new { addr = n.addr; size = add64 new.size n.size };
          spare = free_tree_node removed spare;
        })
    else record { side = l; block = new; spare = spare }

-- The second test, at the node that `find_leftmost` returned.
unfoldable pub join_right : TreeNode → TreeNode → Header → ℕ → Joined
unfolding remove_bst free_tree_node
join_right null r new spare = record { side = r; block = new; spare = spare }
join_right (node n nl nr) r new spare =
    if add64 new.addr new.size == n.addr
    then (let (r', removed) = remove_bst r n.addr in
        record {
          side = r';
          block = record new { size = add64 new.size n.size };
          spare = free_tree_node removed spare;
        })
    else record { side = r; block = new; spare = spare }

-- The new root, and the number of spare nodes.
unfoldable pub insert_treap : TreeNode → TreeNode → ℕ → TreeNode × ℕ
unfolding split_treap find_rightmost find_leftmost join_left join_right merge_treap
insert_treap root null spare = (root, spare)
insert_treap root (node new nl nr) spare =
    let (l, r) = split_treap root new.addr in
    let low = join_left (find_rightmost l) l new spare in
    let high = join_right (find_leftmost r) r low.block low.spare in
    (merge_treap (merge_treap low.side (node high.block nl nr)) high.side, high.spare)

-- The occupied tree, the free tree and the number of spare nodes.
pub record Roots : Type 0 where
  pub occupied : TreeNode
  pub free : TreeNode
  pub spare : ℕ

-- The end of `cleanup_bst`, when both subtrees are done.
unfoldable pub cleanup_root : Header → TreeNode → TreeNode → TreeNode → ℕ → Roots
unfolding remove_bst insert_treap
cleanup_root b l r free spare =
    if b.is_marked
    then record { occupied = node (record b { is_marked = false }) l r; free = free; spare = spare }
    else (let (rest, removed) = remove_bst (node b l r) b.addr in
        let (free', spare') = insert_treap free removed spare in
        record { occupied = rest; free = free'; spare = spare' })

-- The two trees are values, so no node is in both. In the program that fails once `remove_treap` has
-- handed out a node with its old child pointers (Nodes.Allocate): this is the code where it does not.
unfoldable pub cleanup_bst : TreeNode → TreeNode → ℕ → Roots
unfolding cleanup_root
cleanup_bst null free spare = record { occupied = null; free = free; spare = spare }
cleanup_bst (node b l r) free spare =
    let low = cleanup_bst l free spare in
    let high = cleanup_bst r low.free low.spare in
    cleanup_root b low.occupied high.occupied high.free high.spare
