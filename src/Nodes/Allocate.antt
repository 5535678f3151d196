-- ===== src/Nodes/Allocate.antt =====
-- `allocate_large_object` of allocator/large-allocator.c on nodes in memory.
use garbage_collector.Prelude.{
  ℕ, suc, ◌≡◌, ◌≢◌, inl, inr, refl, ap, true, false, ◌==◌, arith, Bool-cases, some,
}
use garbage_collector.Large.Tree.{Header}
use garbage_collector.Large.Bst
use garbage_collector.Nodes.Store.{Cell, Cells, addr_of, merge_treap}
use garbage_collector.Nodes.Treap.{remove_treap}
use garbage_collector.Nodes.Allocator.{LargeHeap}
use garbage_collector.Nodes.Shape.{Shape, Apart, IsTree}

-- The two trees of the heap share no node.
pub record HasTrees (s : LargeHeap) (taken spare : Shape) : Type 0 where
  pub occupied : IsTree s.nodes.cells s.occupied_root taken
  pub free : IsTree s.nodes.cells s.free_root spare
  pub apart : Apart taken spare

pub merge_treap-null : (k : ℕ) (c : Cells) (l : ℕ) → merge_treap (suc k) c l 0 ≡ some (l, c)
unfolding merge_treap
merge_treap-null k c l = elim (Bool-cases (l == 0)) [
  | inl e ↦ let z : l ≡ 0 = ground arith in rw (e, merge_treap, z) refl
  | inr e ↦ rw (e, merge_treap) refl
]

-- The removal of a root with nothing on its right gives what is on its left, and changes nothing.
pub remove_root :
    (k : ℕ) (c : Cells) (f left : ℕ) (b : Header)
    → f ≢ 0
    → c f ≡ record { block = b; left = left; right = 0 }
    → remove_treap (suc (suc k)) c f b.addr ≡ some (record { root = left; removed = f; cells = c })
unfolding remove_treap merge_treap
remove_root k c f left b nz cell =
    let z : (f == 0) ≡ false = ground arith in
    let same : (b.addr == b.addr) ≡ true = ground arith in
    let at : addr_of c f ≡ b.addr = ap (λ (v : Cell). v.block.addr) cell in
    let low : (c f).left ≡ left = ap (λ (v : Cell). v.left) cell in
    let high : (c f).right ≡ 0 = ap (λ (v : Cell). v.right) cell in
    rw (z, remove_treap, at, same, low, high, merge_treap-null k c left) refl
