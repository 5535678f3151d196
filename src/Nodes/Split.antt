-- ===== src/Nodes/Split.antt =====
-- `allocate_large_object` of allocator/large-allocator.c while there is one free block.
use garbage_collector.Prelude.{
  ℕ, suc, ◌<◌, ◌≡◌, ◌≢◌, refl, sym, ap, ◌∙◌, true, false, ◌==◌, leb, arith, some, add64, sub64,
}
use garbage_collector.Large.Tree.{Header}
use garbage_collector.Large.Bst
use garbage_collector.Small.Header.{size_with_alignment}
use garbage_collector.Nodes.Store.{
  Cell, Cells, put, set_block, addr_of, size_of, merge_treap, first_fit_search, split_treap,
  find_rightmost, find_leftmost,
}
use garbage_collector.Nodes.Treap.{Nodes, get_new_tree_node, insert_treap, join_left, join_right}
use garbage_collector.Nodes.Allocator.{LargeHeap, allocate_split, allocate_large_object}
use garbage_collector.Nodes.Shape.{Shape, leaf, branch, IsTree}
use garbage_collector.Nodes.Allocate.{HasTrees, merge_treap-null, remove_root}

-- Into an empty tree.
insert_treap-null :
    (k : ℕ) (s : Nodes) (p : ℕ)
    → p ≢ 0
    → insert_treap (suc k) s 0 p ≡ some (record { root = p; nodes = s })
unfolding insert_treap split_treap find_rightmost find_leftmost join_left join_right merge_treap
insert_treap-null k s p nz =
    let z : (p == 0) ≡ false = ground arith in rw (z, merge_treap-null) refl

-- The one free block is cut: the nodes before the call of `insert_bst`.
abbrev cut_cells : LargeHeap → ℕ → ℕ → Header → Cells
cut_cells s f size b =
    let head = s.nodes.head in
    let c = put s.nodes.cells head (record (s.nodes.cells head) { left = 0; right = 0 }) in
    set_block
      (set_block c head
        (record (c head).block { addr = add64 b.addr size; size = sub64 b.size size }))
      f (record b { size = size })

-- Those of `allocate_large_object` before.
until_cut :
    (k object_size : ℕ) (s : LargeHeap) (f : ℕ) (b : Header) (result : ℕ × LargeHeap)
    → s.free_root ≡ f
    → f ≢ 0
    → s.nodes.cells f ≡ record { block = b; left = 0; right = 0 }
    → size_with_alignment object_size < b.size
    → allocate_split (suc (suc k)) (record s { free_root = 0 }) f (size_with_alignment object_size)
      ≡ some result
    → allocate_large_object (suc (suc k)) s object_size ≡ some result
unfolding allocate_large_object first_fit_search
until_cut k object_size s f b result root nz cell larger ends =
    let addr : addr_of s.nodes.cells f ≡ b.addr = ap (λ (v : Cell). v.block.addr) cell in
    let whole : size_of s.nodes.cells f ≡ b.size = ap (λ (v : Cell). v.block.size) cell in
    let z : (f == 0) ≡ false = ground arith in
    let fit : leb (size_with_alignment object_size) b.size ≡ true = ground arith in
    let differ : (b.size == size_with_alignment object_size) ≡ false = ground arith in
    rw (root, z, whole, fit, z, addr, remove_root k s.nodes.cells f 0 b nz cell, whole, differ) ends

-- If the one free block is larger than the object and there is no spare node, 0 is returned and
-- the heap is left as it was.
pub allocate_large_object-no_node :
    (k object_size : ℕ) (s : LargeHeap) (f : ℕ) (b : Header) (taken : Shape)
    → HasTrees s taken (branch f b leaf leaf)
    → size_with_alignment object_size < b.size
    → s.nodes.head ≡ 0
    → allocate_large_object (suc (suc k)) s object_size ≡ some (0, s)
unfolding allocate_split get_new_tree_node
allocate_large_object-no_node k object_size s f b taken h larger empty = at h.free
  where
    at :
        IsTree s.nodes.cells s.free_root (branch f b leaf leaf)
        → allocate_large_object (suc (suc k)) s object_size ≡ some (0, s)
    at (root, nz, (left, right, cell, none_left, none_right), _) =
        let cell' : s.nodes.cells f ≡ record { block = b; left = 0; right = 0 } =
          cell
          ∙ ap {A = ℕ} {B = Cell} (λ r. record { block = b; left = left; right = r }) none_right
          ∙ ap {A = ℕ} {B = Cell} (λ l. record { block = b; left = l; right = 0 }) none_left in
        let hz : (s.nodes.head == 0) ≡ true = ground arith in
        let back : record s { free_root = f } ≡ s =
          ap {A = ℕ} {B = LargeHeap} (λ p. record s { free_root = p }) (sym root) in
        until_cut k object_size s f b (0, record s { free_root = f }) root nz cell' larger
          (rw (hz, insert_treap-null (suc k) s.nodes f nz) refl)
        ∙ ap {A = LargeHeap} (λ t. some (0, t)) back
