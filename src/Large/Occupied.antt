-- ===== src/Large/Occupied.antt =====
-- `insert_bst` of allocator/binary-search-tree.c on the occupied tree.
use garbage_collector.Prelude.{
  ℕ, suc, ◌+◌, ◌≤◌, ◌<◌, ◌≡◌, refl, Bool, ◌||◌, ltb, arith, Bool-cases, inl, inr,
}
use garbage_collector.Large.Tree.{Header, TreeNode, null, node, in_block, covers, count}
use garbage_collector.Large.Bst.{insert_bst}
use garbage_collector.Large.Layout.{Laid}
use garbage_collector.Large.Merge.{Clear}

-- What insertion of a block gives.
pub record IsAdded (lo hi : ℕ) (t : TreeNode) (b : Header) (out : TreeNode) : Type 0 where
  pub laid : Laid 0 lo hi out
  pub counted : count out ≡ suc (count t)
  pub covered : (x : ℕ) → covers out x ≡ (covers t x || in_block b x)

or_low : (i l r n : Bool) → (i || ((l || n) || r)) ≡ ((i || (l || r)) || n)
or_low i l r n = ground arith

or_high : (i l r n : Bool) → (i || (l || (r || n))) ≡ ((i || (l || r)) || n)
or_high i l r n = ground arith

-- A nonempty block inside the window that overlaps no block of the tree is added: the tree stays
-- laid out in the window, has one more node, and covers the bytes of the block besides those that
-- it covered.
pub insert_bst-IsAdded :
    (lo hi : ℕ) (t : TreeNode) (b : Header)
    → Laid 0 lo hi t
    → 0 < b.size
    → lo ≤ b.addr
    → b.addr + b.size ≤ hi
    → Clear b.addr (b.addr + b.size) t
    → IsAdded lo hi t b (insert_bst t b null null)
unfolding insert_bst
insert_bst-IsAdded lo hi null b h z p q c = record {
  laid = (omega arith, z, omega arith);
  counted = refl;
  covered = λ x. ground arith;
}
insert_bst-IsAdded lo hi (node n l r) b h z p q c = elim (Bool-cases (ltb b.addr n.addr)) [
  | inl below ↦
      let i = insert_bst-IsAdded lo n.addr l b h.0 z p (ground arith) c.1 in
      rw (below, insert_bst)
        (record {
          laid = (i.laid, h.1, h.2);
          counted = omega (arith, i.counted);
          covered = λ x.
              rw (i.covered x) (or_low (in_block n x) (covers l x) (covers r x) (in_block b x));
        })
  | inr above ↦
      let i = insert_bst-IsAdded (n.addr + n.size) hi r b h.2 z (ground arith) q c.2 in
      rw (above, insert_bst)
        (record {
          laid = (h.0, h.1, i.laid);
          counted = omega (arith, i.counted);
          covered = λ x.
              rw (i.covered x) (or_high (in_block n x) (covers l x) (covers r x) (in_block b x));
        })
]
