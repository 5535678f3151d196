-- ===== src/Large/Insert.antt =====
-- `insert_treap` of allocator/treap.c on a free tree: layout, covered bytes and nodes.
use garbage_collector.Prelude.{ℕ, ◌+◌, ◌-◌, ◌<◌, ◌≡◌, refl, Bool, ◌||◌, false, arith, size_mod}
use garbage_collector.Large.Tree.{Header, TreeNode, null, node, in_block, covers, count}
use garbage_collector.Large.Treap.{
  find_rightmost, find_leftmost, split_treap, merge_treap, join_left, join_right, insert_treap,
}
use garbage_collector.Large.Layout.{Laid, Laid-le}
use garbage_collector.Large.Merge.{
  Clear, split_treap-IsSplit, Laid-merge_treap, covers-merge_treap, count-merge_treap,
}
use garbage_collector.Large.Join.{join_left-IsJoinedLeft, join_right-IsJoinedRight}

-- A block that a free tree in the window can take in: nonempty, inside, and clear of all blocks.
pub record IsFresh (lo hi : ℕ) (t : TreeNode) (b : Header) : Type 0 where
  pub nonempty : 0 < b.size
  pub above : lo < b.addr
  pub below : b.addr + b.size < hi
  pub clear : Clear b.addr (b.addr + b.size) t

or_sides :
    (a b h s l r t n : Bool)
    → (a || b) ≡ (l || n)
    → (s || h) ≡ (r || b)
    → (l || r) ≡ t
    → ((a || (h || (false || false))) || s) ≡ (t || n)
or_sides a b h s l r t n p q e = ground arith

-- What insertion of the block `b` in the free tree `t` gives.
pub record IsInserted (lo hi : ℕ) (t : TreeNode) (b : Header) (spare : ℕ) (result : TreeNode × ℕ)
    : Type 0 where
  pub laid : Laid 1 lo hi result.0
  pub counted : result.1 + count result.0 ≡ spare + count t + 1
  pub covered : (x : ℕ) → covers result.0 x ≡ (covers t x || in_block b x)

-- Into a free tree without touching blocks, in a window below 2^64, a nonempty block is inserted
-- that lies inside the window and overlaps no block of the tree. Afterwards no two blocks touch,
-- exactly the bytes of the tree and of the block are covered, and the nodes of the tree and the
-- spare ones are one more than before.
pub insert_treap-IsInserted :
    (lo hi : ℕ) (t : TreeNode) (b : Header) (spare : ℕ)
    → hi < size_mod
    → Laid 1 lo hi t
    → IsFresh lo hi t b
    → IsInserted lo hi t b spare (insert_treap t (node b null null) spare)
unfolding insert_treap
insert_treap-IsInserted lo hi t b spare f h fresh =
    let end = b.addr + b.size - 1 in
    let e : b.addr + b.size ≡ end + 1 = omega (arith, fresh.nonempty) in
    let s =
      split_treap-IsSplit lo b.addr end hi t (omega (arith, fresh.above))
        (omega (arith, e, fresh.nonempty)) (omega (arith, e, fresh.below)) h
        (rw e at fresh.clear) in
    let l = (split_treap t b.addr).0 in
    let r = (split_treap t b.addr).1 in
    let low = join_left (find_rightmost l) l b spare in
    let left =
      join_left-IsJoinedLeft lo l b spare fresh.above fresh.nonempty (omega (arith, fresh.below))
        s.low_laid in
    let high = join_right (find_leftmost r) r low.block low.spare in
    let right =
      join_right-IsJoinedRight end hi r low.block low.spare (omega (arith, left.ends, e))
        (omega (arith, fresh.below, e)) f left.nonempty s.high_laid in
    let middle = node high.block null null in
    let inner = merge_treap low.side middle in
    record {
      laid =
          Laid-merge_treap 1 lo (high.block.addr + high.block.size)
            (high.block.addr + high.block.size + 1) hi inner high.side refl
            (Laid-merge_treap 1 lo (high.block.addr - 1) low.block.addr
              (high.block.addr + high.block.size + 1) low.side middle
              (omega (arith, right.begins, Laid-le 1 lo low.block.addr low.side left.laid))
              left.laid
              (
                omega (arith, right.begins, Laid-le 1 lo low.block.addr low.side left.laid),
                right.nonempty,
                omega arith,
              ))
            right.laid;
      counted = omega (
        arith,
        count-merge_treap low.side middle,
        count-merge_treap inner high.side,
        left.counted,
        right.counted,
        s.counted,
      );
      covered = λ x.
          rw (covers-merge_treap x inner high.side, covers-merge_treap x low.side middle)
            (or_sides (covers low.side x) (in_block low.block x) (in_block high.block x)
              (covers high.side x) (covers l x) (covers r x) (covers t x) (in_block b x)
              (left.covered x) (right.covered x) (s.covered x));
    }
