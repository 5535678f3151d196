-- ===== src/Large/Remove.antt =====
-- `remove_bst` of allocator/binary-search-tree.c: what is left in the tree and what is handed out.
use garbage_collector.Prelude.{ℕ, ◌+◌, ◌≤◌, ◌<◌, ◌≡◌, refl, ◌∷◌, ◌++◌, arith}
use mathlib.Core.List.{append-nil}
use garbage_collector.Large.Tree.{Header, TreeNode, null, node, blocks, count}
use garbage_collector.Large.Bst.{take_min, remove_root, remove_bst}
use garbage_collector.Large.Layout.{Laid, Laid-widen}

blocks-take_min :
    (b : Header) (l r : TreeNode)
    → (take_min b l r).0 ∷ blocks (take_min b l r).1 ≡ blocks (node b l r)
unfolding take_min
blocks-take_min b null r = refl
blocks-take_min b (node lb ll lr) r = λ i. blocks-take_min lb ll lr i ++ b ∷ blocks r

-- The blocks that are left are those of the two subtrees, in order.
pub blocks-remove_root :
    (b : Header) (l r : TreeNode) → blocks (remove_root b l r).0 ≡ blocks l ++ blocks r
unfolding remove_root
blocks-remove_root b null r = refl
blocks-remove_root b (node lb ll lr) null = simp append-nil
blocks-remove_root b (node lb ll lr) (node rb rl rr) =
    λ i. (blocks ll ++ lb ∷ blocks lr) ++ blocks-take_min rb rl rr i

count-take_min : (b : Header) (l r : TreeNode) → count (take_min b l r).1 ≡ count l + count r
unfolding take_min
count-take_min b null r = omega arith
count-take_min b (node lb ll lr) r = omega (arith, count-take_min lb ll lr)

pub count-remove_root :
    (b : Header) (l r : TreeNode) → count (remove_root b l r).0 ≡ count l + count r
unfolding remove_root
count-remove_root b null r = omega arith
count-remove_root b (node lb ll lr) null = omega arith
count-remove_root b (node lb ll lr) (node rb rl rr) = omega (arith, count-take_min rb rl rr)

module _ (gap : ℕ) where
  Laid-take_min :
      (lo hi : ℕ) (b : Header) (l r : TreeNode)
      → Laid gap lo hi (node b l r)
      → let (least, rest) = take_min b l r in
        (lo + gap ≤ least.addr) × (0 < least.size) × Laid gap (least.addr + least.size) hi rest
  unfolding take_min
  Laid-take_min lo hi b null r h = (h.0, h.1, h.2)
  Laid-take_min lo hi b (node lb ll lr) r h =
      let (above, size, rest) = Laid-take_min lo b.addr lb ll lr h.0 in
      (above, size, (rest, h.1, h.2))

  pub Laid-remove_root :
      (lo hi : ℕ) (b : Header) (l r : TreeNode)
      → Laid gap lo hi (node b l r)
      → Laid gap lo hi (remove_root b l r).0
  unfolding remove_root
  Laid-remove_root lo hi b null r h =
      Laid-widen gap (b.addr + b.size) hi lo hi r (omega arith) (omega arith) h.2
  Laid-remove_root lo hi b (node lb ll lr) null h =
      Laid-widen gap lo b.addr lo hi (node lb ll lr) (omega arith) (omega arith) h.0
  Laid-remove_root lo hi b (node lb ll lr) (node rb rl rr) h =
      let (above, size, rest) = Laid-take_min (b.addr + b.size) hi rb rl rr h.2 in
      (
        Laid-widen gap lo b.addr lo (take_min rb rl rr).0.addr (node lb ll lr) (omega arith)
            (omega arith) h.0,
        size,
        rest,
      )

  -- Removal of any address from a laid out tree leaves a tree laid out in the same window.
  pub Laid-remove_bst :
      (lo hi : ℕ) (t : TreeNode) (addr : ℕ)
      → Laid gap lo hi t
      → Laid gap lo hi (remove_bst t addr).0
  unfolding remove_bst
  Laid-remove_bst lo hi null addr h = h
  Laid-remove_bst lo hi (node b l r) addr h = ground (
    arith,
    Laid-remove_bst lo b.addr l addr h.0,
    Laid-remove_bst (b.addr + b.size) hi r addr h.2,
    Laid-remove_root lo hi b l r h,
  )
