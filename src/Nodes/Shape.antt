-- ===== src/Nodes/Shape.antt =====
-- Which nodes of allocator/large-allocator.c make up a tree.
use garbage_collector.Prelude.{ℕ, suc, ◌+◌, ◌≡◌, ◌≢◌, ◌⊎◌, inl, inr, refl, ◌∙◌, false, ◌==◌, arith}
use garbage_collector.Large.Tree.{Header, TreeNode, null, node}
use garbage_collector.Nodes.Store.{Cell, Cells, put}

-- A tree with the address of each node.
pub data Shape : Type 0 where
  leaf : Shape
  branch : ℕ → Header → Shape → Shape → Shape

-- The tree as a value.
abbrev pub tree : Shape → TreeNode
tree leaf = null
tree (branch p b l r) = node b (tree l) (tree r)

abbrev pub height : Shape → ℕ
height leaf = 0
height (branch p b l r) = suc (height l + height r)

-- A node of the tree.
abbrev pub In : ℕ → Shape → Type 0
In x leaf = ⊥
In x (branch p b l r) = (x ≡ p) ⊎ (In x l ⊎ In x r)

abbrev pub Apart : Shape → Shape → Type 0
Apart s t = (x : ℕ) → In x s → In x t → ⊥

-- The pointer leads to a tree of this shape in memory, no two places of which are one node.
abbrev pub IsTree : Cells → ℕ → Shape → Type 0
IsTree cells p leaf = p ≡ 0
IsTree cells p (branch q b l r) =
    (p ≡ q)
    × (q ≢ 0)
    × ((left right : ℕ) × (cells q ≡ record { block = b; left = left; right = right })
        × IsTree cells left l
        × IsTree cells right r)
    × ((In q l → ⊥) × (In q r → ⊥) × Apart l r)

-- A tree is not changed by writes to other nodes.
pub IsTree-frame :
    (c d : Cells) (p : ℕ) (s : Shape) → ((x : ℕ) → In x s → d x ≡ c x) → IsTree c p s → IsTree d p s
IsTree-frame c d p leaf same t = t
IsTree-frame c d p (branch q b l r) same (at, nz, (left, right, cell, tl, tr), apart) = (
  at,
  nz,
  (
    left,
    right,
    same q (inl refl) ∙ cell,
    IsTree-frame c d left l (λ x i. same x (inr (inl i))) tl,
    IsTree-frame c d right r (λ x i. same x (inr (inr i))) tr,
  ),
  apart,
)

pub put_self : (c : Cells) (p : ℕ) (v : Cell) → put c p v p ≡ v
unfolding put
put_self c p v = ground arith

pub put_other : (c : Cells) (p x : ℕ) (v : Cell) → x ≢ p → put c p v x ≡ c x
unfolding put
put_other c p x v n = let e : (x == p) ≡ false = ground arith in rw e refl
