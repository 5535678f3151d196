-- ===== src/Large/Heap.antt =====
-- The heap order of the free tree of allocator/treap.c: no block is larger than its parent's, so
-- that `first_fit_search` need only look at the root.
use garbage_collector.Prelude.{
  ℕ, ◌+◌, ◌-◌, ◌≤◌, ◌<◌, ◌≡◌, refl, Bool, true, ◌||◌, false, arith, size_mod, leb, Bool-cases, inl,
  inr, ◌==◌, add64, add64-le,
}
use garbage_collector.Large.Tree.{Header, TreeNode, null, node}
use garbage_collector.Large.Bst.{remove_bst}
use garbage_collector.Large.Treap.{
  find_rightmost, find_leftmost, first_fit_search, split_treap, merge_treap, join_left, join_right,
  insert_treap,
}
use garbage_collector.Large.Layout.{Laid, Laid-le}
use garbage_collector.Large.Merge.{split_treap-IsSplit}
use garbage_collector.Large.Insert.{IsFresh}
use garbage_collector.Large.Ends.{
  last_block, first_block, find_rightmost-last_block, find_leftmost-first_block,
  last_block-IsCutRight, first_block-IsCutLeft, remove_bst-right, remove_bst-left,
  remove_bst-rightless, remove_bst-leftless,
}

-- The sizes are at most `top`, and fall from parent to child.
abbrev pub HeapBelow : ℕ → TreeNode → Type 0
HeapBelow top null = Unit
HeapBelow top (node b l r) = (b.size ≤ top) × HeapBelow b.size l × HeapBelow b.size r

abbrev pub root_size : TreeNode → ℕ
root_size null = 0
root_size (node b l r) = b.size

abbrev pub IsHeap : TreeNode → Type 0
IsHeap t = HeapBelow (root_size t) t

pub HeapBelow-weaken : (m n : ℕ) (t : TreeNode) → m ≤ n → HeapBelow m t → HeapBelow n t
HeapBelow-weaken m n null p h = tt
HeapBelow-weaken m n (node b l r) p h = (omega arith, h.1, h.2)

pub HeapBelow-IsHeap : (m : ℕ) (t : TreeNode) → HeapBelow m t → IsHeap t
HeapBelow-IsHeap m null h = tt
HeapBelow-IsHeap m (node b l r) h = (omega arith, h.1, h.2)

pub HeapBelow-merge_treap :
    (m : ℕ) (l r : TreeNode) → HeapBelow m l → HeapBelow m r → HeapBelow m (merge_treap l r)
unfolding merge_treap
HeapBelow-merge_treap m null r p q = q
HeapBelow-merge_treap m (node lb ll lr) null p q = p
HeapBelow-merge_treap m (node lb ll lr) (node rb rl rr) p q = ground (
  arith,
  HeapBelow-merge_treap lb.size lr (node rb rl rr) p.2,
  HeapBelow-merge_treap rb.size (node lb ll lr) rl,
)

pub HeapBelow-split_treap :
    (m : ℕ) (t : TreeNode) (addr : ℕ)
    → HeapBelow m t
    → HeapBelow m (split_treap t addr).0 × HeapBelow m (split_treap t addr).1
unfolding split_treap
HeapBelow-split_treap m null addr h = (tt, tt)
HeapBelow-split_treap m (node b l r) addr h = ground (
  arith,
  HeapBelow-split_treap b.size l addr h.1,
  HeapBelow-split_treap b.size r addr h.2,
  HeapBelow-weaken b.size m (split_treap l addr).0 h.0,
  HeapBelow-weaken b.size m (split_treap r addr).1 h.0,
)

-- Cutting the last block off keeps the heap order.
HeapBelow-cut_right :
    (m gap lo hi : ℕ) (b : Header) (l r : TreeNode)
    → Laid gap lo hi (node b l r)
    → HeapBelow m (node b l r)
    → HeapBelow m (remove_bst (node b l r) (last_block b r).addr).0 × ((last_block b r).size ≤ m)
HeapBelow-cut_right m gap lo hi b l null h k =
    rw (remove_bst-rightless b l) (HeapBelow-weaken b.size m l k.0 k.1, k.0)
HeapBelow-cut_right m gap lo hi b l (node rb rl rr) h k =
    let n = last_block rb rr in
    let cut = last_block-IsCutRight gap (b.addr + b.size) hi rb rl rr h.2 in
    let after : b.addr < n.addr = omega (
      arith,
      Laid-le gap (b.addr + b.size) n.addr (remove_bst (node rb rl rr) n.addr).0 cut.laid,
      h.1,
    ) in
    let (rest, small) = HeapBelow-cut_right b.size gap (b.addr + b.size) hi rb rl rr h.2 k.2 in
    rw (remove_bst-right b l (node rb rl rr) n.addr after) ((k.0, k.1, rest), omega arith)

HeapBelow-cut_left :
    (m gap lo hi : ℕ) (b : Header) (l r : TreeNode)
    → Laid gap lo hi (node b l r)
    → HeapBelow m (node b l r)
    → HeapBelow m (remove_bst (node b l r) (first_block b l).addr).0 × ((first_block b l).size ≤ m)
HeapBelow-cut_left m gap lo hi b null r h k =
    rw (remove_bst-leftless b r) (HeapBelow-weaken b.size m r k.0 k.2, k.0)
HeapBelow-cut_left m gap lo hi b (node lb ll lr) r h k =
    let n = first_block lb ll in
    let cut = first_block-IsCutLeft gap lo b.addr lb ll lr h.0 in
    let before : n.addr < b.addr = omega (
      arith,
      Laid-le gap (n.addr + n.size) b.addr (remove_bst (node lb ll lr) n.addr).0 cut.laid,
      cut.nonempty,
    ) in
    let (rest, small) = HeapBelow-cut_left b.size gap lo b.addr lb ll lr h.0 k.1 in
    rw (remove_bst-left b (node lb ll lr) r n.addr before) ((k.0, rest, k.2), omega arith)

HeapBelow-join_left :
    (m gap lo hi : ℕ) (l : TreeNode) (new : Header) (spare : ℕ)
    → Laid gap lo hi l
    → HeapBelow m l
    → let j = join_left (find_rightmost l) l new spare in
      HeapBelow m j.side × (j.block.size ≤ new.size + m)
unfolding join_left find_rightmost
HeapBelow-join_left m gap lo hi null new spare h k = (tt, omega arith)
HeapBelow-join_left m gap lo hi (node b l r) new spare h k =
    let (nl, e) = find_rightmost-last_block b l r in
    let n = last_block b r in
    let (rest, small) = HeapBelow-cut_right m gap lo hi b l r h k in
    elim (Bool-cases (add64 n.addr n.size == new.addr)) [
      | inl touch ↦ rw (e, join_left, touch) (rest, omega (arith, add64-le new.size n.size))
      | inr apart ↦ rw (e, join_left, apart) (k, omega arith)
    ]

HeapBelow-join_right :
    (m gap lo hi : ℕ) (r : TreeNode) (new : Header) (spare : ℕ)
    → Laid gap lo hi r
    → HeapBelow m r
    → let j = join_right (find_leftmost r) r new spare in
      HeapBelow m j.side × (j.block.size ≤ new.size + m)
unfolding join_right find_leftmost
HeapBelow-join_right m gap lo hi null new spare h k = (tt, omega arith)
HeapBelow-join_right m gap lo hi (node b l r) new spare h k =
    let (nr, e) = find_leftmost-first_block b l r in
    let n = first_block b l in
    let (rest, small) = HeapBelow-cut_left m gap lo hi b l r h k in
    elim (Bool-cases (add64 new.addr new.size == n.addr)) [
      | inl touch ↦ rw (e, join_right, touch) (rest, omega (arith, add64-le new.size n.size))
      | inr apart ↦ rw (e, join_right, apart) (k, omega arith)
    ]

-- In a window of addresses below 2^64, let the free tree have no two touching blocks, and let the new
-- block not be empty, lie strictly inside the window and overlap no block of the tree. If the sizes in
-- the free tree fall from parent to child, they still do after the insertion.
pub insert_treap-IsHeap :
    (m lo hi : ℕ) (t : TreeNode) (b : Header) (spare : ℕ)
    → hi < size_mod
    → Laid 1 lo hi t
    → IsFresh lo hi t b
    → HeapBelow m t
    → IsHeap (insert_treap t (node b null null) spare).0
unfolding insert_treap
insert_treap-IsHeap m lo hi t b spare f h fresh k =
    let end = b.addr + b.size - 1 in
    let e : b.addr + b.size ≡ end + 1 = omega (arith, fresh.nonempty) in
    let s =
      split_treap-IsSplit lo b.addr end hi t (omega (arith, fresh.above))
        (omega (arith, e, fresh.nonempty)) (omega (arith, e, fresh.below)) h
        (rw e at fresh.clear) in
    let (left_heap, right_heap) = HeapBelow-split_treap m t b.addr k in
    let l = (split_treap t b.addr).0 in
    let r = (split_treap t b.addr).1 in
    let low = join_left (find_rightmost l) l b spare in
    let high = join_right (find_leftmost r) r low.block low.spare in
    let (low_heap, low_size) =
      HeapBelow-join_left m 1 lo (b.addr + 1) l b spare s.low_laid left_heap in
    let (high_heap, high_size) =
      HeapBelow-join_right m 1 end hi r low.block low.spare s.high_laid right_heap in
    let top = b.size + m + m in
    let middle = node high.block null null in
    let weaken = λ (x : TreeNode) (q : HeapBelow m x). HeapBelow-weaken m top x (omega arith) q in
    HeapBelow-IsHeap top (merge_treap (merge_treap low.side middle) high.side) (
      HeapBelow-merge_treap top (merge_treap low.side middle) high.side
        (HeapBelow-merge_treap top low.side middle (weaken low.side low_heap) (omega arith, tt, tt))
        (weaken high.side high_heap))

-- Some block of the tree has at least `size` bytes.
abbrev pub some_fits : ℕ → TreeNode → Bool
some_fits size null = false
some_fits size (node b l r) = leb size b.size || (some_fits size l || some_fits size r)

abbrev pub is_node : TreeNode → Bool
is_node null = false
is_node (node b l r) = true

some_fits-small :
    (size top : ℕ) (t : TreeNode) → HeapBelow top t → top < size → some_fits size t ≡ false
some_fits-small size top null h p = refl
some_fits-small size top (node b l r) h p =
    ground (arith, some_fits-small size b.size l h.1, some_fits-small size b.size r h.2)

-- In a free tree in heap order the search finds a block exactly when some block of the tree has at
-- least the size that is asked for, though it looks at the root only.
pub first_fit_search-some_fits :
    (t : TreeNode) (size : ℕ) → IsHeap t → is_node (first_fit_search t size) ≡ some_fits size t
unfolding first_fit_search
first_fit_search-some_fits null size h = refl
first_fit_search-some_fits (node b l r) size h =
    ground (arith, some_fits-small size b.size l h.1, some_fits-small size b.size r h.2)
