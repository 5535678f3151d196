-- ===== src/Nodes/Treap.antt =====
-- The list of spare nodes of allocator/large-allocator.c, and `insert_treap` and `remove_treap` of
-- allocator/treap.c.
use garbage_collector.Prelude.{
  ℕ, zero, suc, true, false, ◌==◌, ltb, if◌then◌else◌, Option, none, some, ◌>>=◌, add64,
}
use garbage_collector.Nodes.Store.{
  Cells, Removal, Halves, put, set_block, addr_of, removal_left, removal_right, remove_bst,
  split_treap, merge_treap, find_rightmost, find_leftmost,
}

-- The nodes and `TREENODE_LIST_HEAD`.
pub record Nodes : Type 0 where
  pub cells : Cells
  pub head : ℕ

unfoldable pub free_tree_node : Nodes → ℕ → Nodes
unfolding put
free_tree_node s node = if node == 0 then s else record {
  cells = put s.cells node (record {
    block = record { addr = 0; size = 0; is_marked = false };
    left = 0;
    right = s.head;
  });
  head = node;
}

-- The node, or `NULL`, and the list without it.
unfoldable pub get_new_tree_node : Nodes → ℕ × Nodes
unfolding put
get_new_tree_node s = if s.head == 0 then (0, s) else (
  s.head,
  record {
    cells = put s.cells s.head (record (s.cells s.head) { left = 0; right = 0 });
    head = (s.cells s.head).right;
  },
)

-- One side of the split tree and the nodes.
pub record Side : Type 0 where
  pub root : ℕ
  pub nodes : Nodes

-- The first test of `insert_treap`, at the node that `find_rightmost` returned.
unfoldable pub join_left : ℕ → Side → ℕ → ℕ → Option Side
unfolding remove_bst free_tree_node
join_left n s new_node neighbor =
    let cells = s.nodes.cells in
    let new = (cells new_node).block in
    let old = (cells neighbor).block in
    if neighbor == 0
    then some s
    else if add64 old.addr old.size == new.addr
    then (let joined =
          set_block cells new_node
            (record new { addr = old.addr; size = add64 new.size old.size }) in
        remove_bst n joined s.root old.addr >>= λ r. some (record {
          root = r.root;
          nodes = free_tree_node (record { cells = r.cells; head = s.nodes.head }) r.removed;
        }))
    else some s

-- The second one, at the node that `find_leftmost` returned.
unfoldable pub join_right : ℕ → Side → ℕ → ℕ → Option Side
unfolding remove_bst free_tree_node
join_right n s new_node neighbor =
    let cells = s.nodes.cells in
    let new = (cells new_node).block in
    let old = (cells neighbor).block in
    if neighbor == 0
    then some s
    else if add64 new.addr new.size == old.addr
    then (let joined = set_block cells new_node (record new { size = add64 new.size old.size }) in
        remove_bst n joined s.root old.addr >>= λ r. some (record {
          root = r.root;
          nodes = free_tree_node (record { cells = r.cells; head = s.nodes.head }) r.removed;
        }))
    else some s

-- Both tests, the left one first.
abbrev join : ℕ → ℕ → Halves → ℕ → Option (ℕ × Side)
join n new_node h head = find_rightmost n h.cells h.low >>= λ left_neighbor.
    join_left n (record { root = h.low; nodes = record { cells = h.cells; head = head } }) new_node
      left_neighbor
    >>= λ l. find_leftmost n l.nodes.cells h.high >>= λ right_neighbor.
        join_right n (record { root = h.high; nodes = l.nodes }) new_node right_neighbor >>= λ r.
        some (l.root, r)

unfoldable pub insert_treap : ℕ → Nodes → ℕ → ℕ → Option Side
unfolding split_treap merge_treap find_rightmost find_leftmost join_left join_right
insert_treap n s root new_node =
    if new_node == 0
    then some (record { root = root; nodes = s })
    else split_treap n s.cells root (addr_of s.cells new_node) >>= λ h.
        join n new_node h s.head >>= λ (l, r).
        merge_treap n r.nodes.cells l new_node >>= λ (t, cells).
        merge_treap n cells t r.root >>= λ (u, cells').
        some (record { root = u; nodes = record { cells = cells'; head = r.nodes.head } })

-- The removed node keeps its pointers.
unfoldable pub remove_treap : ℕ → Cells → ℕ → ℕ → Option Removal
unfolding merge_treap put
remove_treap zero cells t addr = none
remove_treap (suc n) cells t addr = elim (t == 0) [
  | true ↦ some (record { root = 0; removed = 0; cells = cells })
  | false ↦ elim (addr_of cells t == addr) [
    | true ↦ merge_treap n cells (cells t).left (cells t).right >>= λ (tmp, cells').
        some (record { root = tmp; removed = t; cells = cells' })
    | false ↦ elim (ltb addr (addr_of cells t)) [
      | true ↦ remove_treap n cells (cells t).left addr >>= removal_left t
      | false ↦ remove_treap n cells (cells t).right addr >>= removal_right t
    ]
  ]
]
