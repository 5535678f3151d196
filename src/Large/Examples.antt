-- ===== src/Large/Examples.antt =====
-- Runs of the tree routines, and the theorems at concrete trees.
use garbage_collector.Prelude.{add64, ℕ, ◌≡◌, refl, Bool, true, false, inl, inr, arith}
use garbage_collector.Large.Tree.{Header, TreeNode, null, node, in_block, covers, blocks}
use garbage_collector.Large.Bst.{search_bst, insert_bst, ext_search_bst}
use garbage_collector.Large.Treap.{insert_treap, cleanup_bst, first_fit_search}
use garbage_collector.Large.Search.{
  root_block, find?, around, ext_search_bst-find?, search_bst-find?, at_addr,
}
use garbage_collector.Large.Insert.{IsFresh, IsInserted, insert_treap-IsInserted}
use garbage_collector.Large.Heap.{
  IsHeap, is_node, some_fits, insert_treap-IsHeap, first_fit_search-some_fits,
}
use garbage_collector.Large.Reclaim.{Disjoint, IsReclaimed, cleanup_bst-IsReclaimed}
use garbage_collector.Large.Occupied.{IsAdded, insert_bst-IsAdded}
use garbage_collector.Large.Live.{cleanup_bst_frees_live}

abbrev block : ℕ → ℕ → Bool → Header
block a s m = record { addr = a; size = s; is_marked = m }

-- A free tree of two blocks in the window from 999 to 9000, and a block between them.
abbrev free_tree : TreeNode
free_tree = node (block 5000 3000 false) (node (block 1000 500 false) null null) null

abbrev gap_block : Header
gap_block = block 1500 2000 false

gap_block-IsFresh : IsFresh 999 9000 free_tree gap_block
gap_block-IsFresh = record {
  nonempty = omega arith;
  above = omega arith;
  below = omega arith;
  clear = (inr (omega arith), (inl (omega arith), tt, tt), tt);
}

insert_joins :
    insert_treap free_tree (node gap_block null null) 7
    ≡ (node (block 5000 3000 false) (node (block 1000 2500 false) null null) null, 8)
unfolding insert_treap add64
insert_joins = refl

insert_treap-IsInserted_example :
    IsInserted 999 9000 free_tree gap_block 7 (insert_treap free_tree (node gap_block null null) 7)
insert_treap-IsInserted_example =
    insert_treap-IsInserted 999 9000 free_tree gap_block 7 (omega arith) (omega arith)
      gap_block-IsFresh

insert_treap-IsHeap_example : IsHeap (insert_treap free_tree (node gap_block null null) 7).0
insert_treap-IsHeap_example =
    insert_treap-IsHeap 3000 999 9000 free_tree gap_block 7 (omega arith) (omega arith)
      gap_block-IsFresh (omega arith)

first_fit_search-some_fits_example :
    is_node (first_fit_search free_tree 2500) ≡ some_fits 2500 free_tree
first_fit_search-some_fits_example = first_fit_search-some_fits free_tree 2500 (omega arith)

-- Three occupied blocks, of which the middle one, at the root, is unmarked.
abbrev occupied_tree : TreeNode
occupied_tree =
    node (block 2000 100 false) (node (block 1500 100 true) null null)
      (node (block 3000 100 true) null null)

ext_search_bst-find?_example :
    root_block (ext_search_bst occupied_tree 3050) ≡ find? (around 3050) (blocks occupied_tree)
ext_search_bst-find?_example =
    ext_search_bst-find? 0 3050 1000 9000 occupied_tree (omega arith) (omega arith)

insert_bst-IsAdded_example :
    IsAdded 1000 9000 occupied_tree
      (block 2500 80 false)
      (insert_bst occupied_tree (block 2500 80 false) null null)
insert_bst-IsAdded_example =
    insert_bst-IsAdded 1000 9000 occupied_tree (block 2500 80 false) (omega arith) (omega arith)
      (omega arith) (omega arith)
      (inl (omega arith), (inl (omega arith), tt, tt), (inr (omega arith), tt, tt))

search_bst-find?_example :
    root_block (search_bst occupied_tree 3000) ≡ find? (at_addr 3000) (blocks occupied_tree)
search_bst-find?_example = search_bst-find? 0 3000 1000 9000 occupied_tree (omega arith)

-- The unmarked block at 2000 is in neither tree afterwards, the live one at 3000 in both.
cleanup_runs : cleanup_bst occupied_tree null 0 ≡ record {
  occupied = node (block 3000 100 false) (node (block 1500 100 false) null null) null;
  free = node (block 3000 100 false) null null;
  spare = 0;
}
unfolding cleanup_bst
cleanup_runs = refl

cleanup_bst_frees_live_example :
    let out = cleanup_bst occupied_tree null 0 in
    (covers out.occupied 3010 ≡ true) × (covers out.free 3010 ≡ true)
unfolding in_block
cleanup_bst_frees_live_example =
    cleanup_bst_frees_live 999 9000 (block 2000 100 false) (block 1500 100 true)
      (block 3000 100 true) null null null null null 0 3010 (omega arith) (omega arith)
      (record { nonempty = omega arith; above = omega arith; below = omega arith; clear = tt }) refl
      (refl, tt, tt) (refl, tt, tt) refl

-- One occupied block of two is unmarked, at the end of the tree.
abbrev one_dead : TreeNode
one_dead = node (block 2000 100 true) null (node (block 3000 100 false) null null)

one_dead-Disjoint : Disjoint one_dead (node (block 4000 1000 false) null null)
unfolding in_block
one_dead-Disjoint x h = ground arith

cleanup_bst-IsReclaimed_example :
    IsReclaimed 999 9000 one_dead
      (node (block 4000 1000 false) null null)
      5
      (cleanup_bst one_dead (node (block 4000 1000 false) null null) 5)
cleanup_bst-IsReclaimed_example =
    cleanup_bst-IsReclaimed 999 9000 1000 8999 one_dead (node (block 4000 1000 false) null null) 5
      (omega arith) (omega arith) (omega arith) (omega arith) (omega arith) (omega arith)
      one_dead-Disjoint (inl refl, tt, (inr (inl refl), tt, tt))
