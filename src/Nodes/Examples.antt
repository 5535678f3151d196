-- ===== src/Nodes/Examples.antt =====
-- Runs of allocator/large-allocator.c on nodes in memory.
use garbage_collector.Prelude.{
  ℕ, ◌≡◌, refl, arith, Option, none, some, false, ◌==◌, if◌then◌else◌, add64, sub64,
}
use garbage_collector.Large.Tree.{Header, null}
use garbage_collector.Large.Bst
use garbage_collector.Nodes.Shape.{Shape, leaf, branch, tree, In, IsTree}
use garbage_collector.Nodes.Insert.{insert_bst-IsTree}
use garbage_collector.Nodes.Allocate.{HasTrees}
use garbage_collector.Small.Header.{size_with_alignment}
use garbage_collector.Nodes.Store.{Cells, insert_bst, merge_treap, split_treap}
use garbage_collector.Nodes.Treap.{insert_treap, remove_treap}
use garbage_collector.Nodes.Allocator.{
  LargeHeap, init_large_allocator, allocate_large_object, allocate_split,
}

abbrev junk : Cells
junk p = record { block = record { addr = 7; size = 7; is_marked = false }; left = 7; right = 7 }

-- Four nodes from 1000 on.
abbrev fresh : LargeHeap
fresh = init_large_allocator 4 1000 100_000 junk

abbrev answer : Option (ℕ × LargeHeap) → ℕ
answer none = 1
answer (some (p, s)) = p

abbrev after : Option (ℕ × LargeHeap) → LargeHeap
after none = fresh
after (some (p, s)) = s

first_object : answer (allocate_large_object 5 fresh 3001) ≡ 100_000
unfolding init_large_allocator allocate_large_object allocate_split remove_treap insert_bst
    merge_treap split_treap insert_treap size_with_alignment add64 sub64
first_object = refl

abbrev one : LargeHeap
one = after (allocate_large_object 5 fresh 3001)

second_object : answer (allocate_large_object 5 one 4000) ≡ 103_008
unfolding init_large_allocator allocate_large_object allocate_split remove_treap insert_bst
    merge_treap split_treap insert_treap size_with_alignment add64 sub64
second_object = refl

-- One object at 503000, and two free blocks, of which the larger one is the root.
abbrev block : ℕ → ℕ → Header
block addr size = record { addr = addr; size = size; is_marked = false }

abbrev cells : Cells
cells x =
    if x == 1000
    then record { block = block 503_000 3000; left = 0; right = 0 }
    else if x == 1040
    then record { block = block 510_000 4000; left = 1080; right = 0 }
    else if x == 1080
    then record { block = block 500_000 3000; left = 0; right = 0 }
    else record { block = block 0 0; left = 0; right = 0 }

abbrev used : Shape
used = branch 1000 (block 503_000 3000) leaf leaf

abbrev low : Shape
low = branch 1080 (block 500_000 3000) leaf leaf

abbrev heap : LargeHeap
heap = record {
  nodes = record { cells = cells; head = 1120 };
  free_root = 1040;
  occupied_root = 1000;
  start = 500_000;
  finish = 514_000;
}

used-IsTree : IsTree cells 1000 used
used-IsTree = (refl, omega arith, (0, 0, refl, refl, refl), ((λ i. i), (λ i. i), (λ x i j. i)))

low-IsTree : IsTree cells 1080 low
low-IsTree = (refl, omega arith, (0, 0, refl, refl, refl), ((λ i. i), (λ i. i), (λ x i j. i)))

insert_bst-IsTree_example :
    (root' : ℕ) × (d : Cells) × (s' : Shape) × (insert_bst 2 cells 1000 1080 ≡ some (root', d))
    × IsTree d root' s'
    × (tree s' ≡ Bst.insert_bst (tree used) (block 500_000 3000) null null)
    × ((x : ℕ) → (In x used → ⊥) → d x ≡ cells x)
insert_bst-IsTree_example =
    insert_bst-IsTree 2 cells 1000 1080 used (block 500_000 3000) leaf leaf (omega arith)
      used-IsTree low-IsTree (λ x i j. ground arith)

-- The same heap without the free block on the left.
abbrev lone : LargeHeap
lone = record heap {
  nodes = record {
    cells = λ x.
        if x == 1040 then record { block = block 510_000 4000; left = 0; right = 0 } else cells x;
    head = 1120;
  };
}

lone-HasTrees : HasTrees lone used (branch 1040 (block 510_000 4000) leaf leaf)
lone-HasTrees = record {
  occupied = (refl, omega arith, (0, 0, refl, refl, refl), ((λ i. i), (λ i. i), (λ x i j. i)));
  free = (refl, omega arith, (0, 0, refl, refl, refl), ((λ i. i), (λ i. i), (λ x i j. j)));
  apart = λ x i j. ground arith;
}

abbrev full : LargeHeap
full = record lone { nodes = record { cells = lone.nodes.cells; head = 0 } }

full-HasTrees : HasTrees full used (branch 1040 (block 510_000 4000) leaf leaf)
full-HasTrees = record {
  occupied = lone-HasTrees.occupied;
  free = lone-HasTrees.free;
  apart = λ x i j. ground arith;
}
