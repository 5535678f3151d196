-- ===== src/Nodes/Store.antt =====
-- The functions of allocator/binary-search-tree.c and allocator/treap.c on the nodes in memory. A
-- pointer is a number, `NULL` is 0, and all others are to nodes of `TREENODES_LIST`. The recursions
-- run on fuel for their depth, and are `none` when it has run out.
use garbage_collector.Prelude.{
  ℕ, zero, suc, true, false, ◌==◌, ltb, leb, if◌then◌else◌, Option, none, some, ◌>>=◌,
}
use garbage_collector.Large.Tree.{Header}

pub record Cell : Type 0 where
  pub block : Header
  pub left : ℕ
  pub right : ℕ

abbrev pub Cells : Type 0
Cells = ℕ → Cell

unfoldable pub put : Cells → ℕ → Cell → Cells
put cells p c x = if x == p then c else cells x

-- Assignments to a field of a node.
abbrev pub set_left : Cells → ℕ → ℕ → Cells
set_left cells p q = put cells p (record (cells p) { left = q })

abbrev pub set_right : Cells → ℕ → ℕ → Cells
set_right cells p q = put cells p (record (cells p) { right = q })

abbrev pub set_block : Cells → ℕ → Header → Cells
set_block cells p b = put cells p (record (cells p) { block = b })

abbrev pub addr_of : Cells → ℕ → ℕ
addr_of cells p = (cells p).block.addr

abbrev pub size_of : Cells → ℕ → ℕ
size_of cells p = (cells p).block.size

-- The root that is returned, and the nodes.
abbrev pub Rooted : Type 0
Rooted = ℕ × Cells

abbrev assign_left : ℕ → Rooted → Option Rooted
assign_left root (p, cells) = some (root, set_left cells root p)

abbrev assign_right : ℕ → Rooted → Option Rooted
assign_right root (p, cells) = some (root, set_right cells root p)

unfoldable pub insert_bst : ℕ → Cells → ℕ → ℕ → Option Rooted
unfolding put
insert_bst zero cells root node = none
insert_bst (suc n) cells root node = elim (root == 0) [
  | true ↦ some (node, cells)
  | false ↦ elim (ltb (addr_of cells node) (addr_of cells root)) [
    | true ↦ insert_bst n cells (cells root).left node >>= assign_left root
    | false ↦ insert_bst n cells (cells root).right node >>= assign_right root
  ]
]

-- The root that is returned, `*removed`, and the nodes.
pub record Removal : Type 0 where
  pub root : ℕ
  pub removed : ℕ
  pub cells : Cells

abbrev pub removal_left : ℕ → Removal → Option Removal
removal_left t r = some (record r { root = t; cells = set_left r.cells t r.root })

abbrev pub removal_right : ℕ → Removal → Option Removal
removal_right t r = some (record r { root = t; cells = set_right r.cells t r.root })

-- The loop of `remove_bst`: `min_node_parent` and `min_node`.
unfoldable pub find_min : ℕ → Cells → ℕ → ℕ → Option (ℕ × ℕ)
find_min zero cells parent p = none
find_min (suc n) cells parent p = elim ((cells p).left == 0) [
  | true ↦ some (parent, p)
  | false ↦ find_min n cells p (cells p).left
]

-- `remove_bst` at the node of the address: `again` is the call for the node of the least block.
unfoldable pub remove_found : (Cells → ℕ → ℕ → Option Removal) → ℕ → Cells → ℕ → Option Removal
unfolding put find_min
remove_found again n cells root =
    if (cells root).left == 0
    then some (record {
      root = (cells root).right;
      removed = root;
      cells = put cells root (record (cells root) { left = 0; right = 0 });
    })
    else if (cells root).right == 0
    then some (record {
      root = (cells root).left;
      removed = root;
      cells = put cells root (record (cells root) { left = 0; right = 0 });
    })
    else find_min n cells root (cells root).right >>= λ (parent, least).
        let copied = set_block cells root (cells least).block in
        again copied least (addr_of copied least) >>= λ r.
        if (copied parent).left == least
        then some
            (record { root = root; removed = r.removed; cells = set_left r.cells parent r.root })
        else some
            (record { root = root; removed = r.removed; cells = set_right r.cells parent r.root })

unfoldable pub remove_bst : ℕ → Cells → ℕ → ℕ → Option Removal
unfolding put remove_found
remove_bst zero cells root addr = none
remove_bst (suc n) cells root addr = elim (root == 0) [
  | true ↦ some (record { root = 0; removed = 0; cells = cells })
  | false ↦ elim (ltb addr (addr_of cells root)) [
    | true ↦ remove_bst n cells (cells root).left addr >>= removal_left root
    | false ↦ elim (ltb (addr_of cells root) addr) [
      | true ↦ remove_bst n cells (cells root).right addr >>= removal_right root
      | false ↦ remove_found (remove_bst n) n cells root
    ]
  ]
]

unfoldable pub first_fit_search : Cells → ℕ → ℕ → ℕ
first_fit_search cells root size =
    if root == 0 then 0 else if leb size (size_of cells root) then root else 0

-- `*l`, `*r` and the nodes.
pub record Halves : Type 0 where
  pub low : ℕ
  pub high : ℕ
  pub cells : Cells

abbrev split_left : ℕ → Halves → Option Halves
split_left t h = some (record h { high = t; cells = set_left h.cells t h.high })

abbrev split_right : ℕ → Halves → Option Halves
split_right t h = some (record h { low = t; cells = set_right h.cells t h.low })

-- What is written through `&(t->left)` is not read before the call returns.
unfoldable pub split_treap : ℕ → Cells → ℕ → ℕ → Option Halves
unfolding put
split_treap zero cells t addr = none
split_treap (suc n) cells t addr = elim (t == 0) [
  | true ↦ some (record { low = 0; high = 0; cells = cells })
  | false ↦ elim (ltb addr (addr_of cells t)) [
    | true ↦ split_treap n cells (cells t).left addr >>= split_left t
    | false ↦ split_treap n cells (cells t).right addr >>= split_right t
  ]
]

unfoldable pub merge_treap : ℕ → Cells → ℕ → ℕ → Option Rooted
unfolding put
merge_treap zero cells l r = none
merge_treap (suc n) cells l r = elim (l == 0) [
  | true ↦ some (r, cells)
  | false ↦ elim (r == 0) [
    | true ↦ some (l, cells)
    | false ↦ elim (ltb (size_of cells r) (size_of cells l)) [
      | true ↦ merge_treap n cells (cells l).right r >>= assign_right l
      | false ↦ merge_treap n cells l (cells r).left >>= assign_left r
    ]
  ]
]

-- The loops, from a node that is not `NULL`.
unfoldable pub rightmost : ℕ → Cells → ℕ → Option ℕ
rightmost zero cells t = none
rightmost (suc n) cells t = elim ((cells t).right == 0) [
  | true ↦ some t
  | false ↦ rightmost n cells (cells t).right
]

unfoldable pub leftmost : ℕ → Cells → ℕ → Option ℕ
leftmost zero cells t = none
leftmost (suc n) cells t = elim ((cells t).left == 0) [
  | true ↦ some t
  | false ↦ leftmost n cells (cells t).left
]

unfoldable pub find_rightmost : ℕ → Cells → ℕ → Option ℕ
unfolding rightmost
find_rightmost n cells t = if t == 0 then some 0 else rightmost n cells t

unfoldable pub find_leftmost : ℕ → Cells → ℕ → Option ℕ
unfolding leftmost
find_leftmost n cells t = if t == 0 then some 0 else leftmost n cells t
